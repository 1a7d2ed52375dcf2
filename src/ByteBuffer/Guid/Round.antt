-- ===== src/ByteBuffer/Guid/Round.antt =====
-- A packed number is read back.
use mmo_wow.Prelude.{
  ℕ, zero, suc, ◌+◌, ◌*◌, ◌/◌, ◌%◌, ◌^◌, ◌≡◌, ◌≤◌, ◌<◌, refl, sym, ap, ◌∙◌, bit_and, bit_or, true,
  List, [], ◌∷◌, ◌++◌, append-nil, append_assoc, ok, ◌==◌, if◌then◌else◌, ◌>>=◌, inl, inr, arith,
  length, length-drop, Bool-cases,
}
use native.Mathlib.Nat.{pow-suc, mod-eq_of_lt, div-div-eq-div-mul}
use mmo_wow.Prelude.Bits.{double, bit_or_shifted, bit_and_halves, bit_and-one}
use mmo_wow.Prelude.Bytes.{to_bytes, of_bytes, of_bytes-to_bytes, length-to_bytes}
use mmo_wow.ByteBuffer.{ByteBuffer, max_size, append}
use mmo_wow.ByteBuffer.Stream.{
  IsStream, unread, appended, append-eq, appended-IsStream, unread-appended, skipped, read_value-eq,
}
use mmo_wow.ByteBuffer.Guid.{
  pack_loop, append_pack_guid, read_guid_byte, unpack_loop, read_pack_guid,
}

-- the mask of bytes, the lowest bit for the first, and the bytes that are not zero
abbrev pub mask_of : List ℕ → ℕ
mask_of [] = 0
mask_of (d ∷ ds) = (if d == 0 then 0 else 1) + 2 * mask_of ds

abbrev pub present : List ℕ → List ℕ
present [] = []
present (d ∷ ds) = if d == 0 then present ds else d ∷ present ds

zeros : (w : ℕ) → (mask_of (to_bytes w 0) ≡ 0) × (present (to_bytes w 0) ≡ [])
zeros zero = (refl, refl)
zeros (suc w) = let (a, b) = zeros w in (omega (arith, a), b)

power_le : (i n : ℕ) → i ≤ n → 2 ^ i ≤ 2 ^ n
power_le zero zero h = omega arith
power_le zero (suc n) h = omega (arith, power_le zero n (omega arith), pow-suc 2 n)
power_le (suc i) zero h = absurd (omega arith)
power_le (suc i) (suc n) h = omega (arith, power_le i n (omega arith), pow-suc 2 i, pow-suc 2 n)

small : (i : ℕ) → i < 8 → 2 ^ i % 256 ≡ 2 ^ i
small i h = mod-eq_of_lt (omega (arith, power_le i 7 (omega arith)))

shifted_mask : (d m i : ℕ) → (d + 2 * m) * 2 ^ i ≡ d * 2 ^ i + m * 2 ^ suc i
shifted_mask d m i = grind (arith, double m i)

-- The loop adds the mask and the bytes of what is left.
pack_loop-eq :
    (fuel i guid mark : ℕ) (bytes : List ℕ)
    → mark < 2 ^ i
    → i + fuel ≤ 8
    → pack_loop fuel i guid mark bytes
      ≡ (mark + mask_of (to_bytes fuel guid) * 2 ^ i, bytes ++ present (to_bytes fuel guid))
unfolding pack_loop
pack_loop-eq zero i guid mark bytes h l = ground (arith, append-nil bytes)
pack_loop-eq (suc fuel) i guid mark bytes h l = elim (Bool-cases (guid == 0)) [
  | inl q ↦
      (let e : guid ≡ 0 = ground (arith, q) in
        let (a, b) = zeros (suc fuel) in
        let x : mask_of (to_bytes (suc fuel) guid) ≡ 0 =
          ap (λ g. mask_of (to_bytes (suc fuel) g)) e ∙ a in
        let y : present (to_bytes (suc fuel) guid) ≡ [] =
          ap (λ g. present (to_bytes (suc fuel) g)) e ∙ b in
        ground (arith, q, x, y, append-nil bytes))
  | inr q ↦ elim (Bool-cases (guid % 256 == 0)) [
    | inl z ↦
        (let r =
            pack_loop-eq fuel (suc i) (guid / 256) mark bytes (omega (arith, pow-suc 2 i))
              (omega arith) in
          let m : mask_of (to_bytes (suc fuel) guid)
              ≡ 0 + 2 * mask_of (to_bytes fuel (guid / 256)) =
            ground (arith, z) in
          let x = shifted_mask 0 (mask_of (to_bytes fuel (guid / 256))) i in
          let k : mark + mask_of (to_bytes fuel (guid / 256)) * 2 ^ suc i
              ≡ mark + mask_of (to_bytes (suc fuel) guid) * 2 ^ i =
            omega (arith, ap (λ j. j * 2 ^ i) m, x) in
          let y : present (to_bytes (suc fuel) guid) ≡ present (to_bytes fuel (guid / 256)) =
            ground (arith, z) in
          ground (arith, q, z, r, k, y))
    | inr z ↦
        (let p : 2 ^ i % 256 ≡ 2 ^ i = small i (omega arith) in
          let o : bit_or mark (2 ^ i) ≡ mark + 2 ^ i =
            ap (bit_or mark) (omega arith) ∙ (bit_or_shifted i mark 1 h ∙ omega arith) in
          let r =
            pack_loop-eq fuel (suc i) (guid / 256) (mark + 2 ^ i) (bytes ++ (guid % 256 ∷ []))
              (omega (arith, pow-suc 2 i)) (omega arith) in
          let m : mask_of (to_bytes (suc fuel) guid)
              ≡ 1 + 2 * mask_of (to_bytes fuel (guid / 256)) =
            ground (arith, z) in
          let x = shifted_mask 1 (mask_of (to_bytes fuel (guid / 256))) i in
          let k : mark + 2 ^ i + mask_of (to_bytes fuel (guid / 256)) * 2 ^ suc i
              ≡ mark + mask_of (to_bytes (suc fuel) guid) * 2 ^ i =
            omega (arith, ap (λ j. j * 2 ^ i) m, x) in
          let y : present (to_bytes (suc fuel) guid)
              ≡ (guid % 256) ∷ present (to_bytes fuel (guid / 256)) =
            ground (arith, z) in
          let v = append_assoc bytes (guid % 256 ∷ []) (present (to_bytes fuel (guid / 256))) in
          ground (arith, q, z, p, o, r, k, y, v))
  ]
]

-- A bit of the mask is tested.
bit_test : (i mark : ℕ) → bit_and mark (2 ^ i) ≡ mark / 2 ^ i % 2 * 2 ^ i
bit_test zero mark = omega (arith, bit_and-one mark)
bit_test (suc i) mark =
    let p : 2 ^ suc i / 2 ≡ 2 ^ i = omega (arith, pow-suc 2 i) in
    let h : mark / 2 ^ suc i ≡ mark / 2 / 2 ^ i =
      ap (λ k. mark / k) (pow-suc 2 i)
      ∙ sym (div-div-eq-div-mul mark 2 (2 ^ i) ∙ ap (λ k. mark / k) (omega arith)) in
    let e : bit_and (mark / 2) (2 ^ suc i / 2) ≡ mark / 2 / 2 ^ i % 2 * 2 ^ i =
      ap (bit_and (mark / 2)) p ∙ bit_test i (mark / 2) in
    let f : mark / 2 ^ suc i % 2 * 2 ^ suc i ≡ mark / 2 / 2 ^ i % 2 * 2 ^ suc i =
      ap (λ k. k % 2 * 2 ^ suc i) h in
    omega
      (arith, bit_and_halves mark (2 ^ suc i), e, f, double (mark / 2 / 2 ^ i % 2) i, pow-suc 2 i)

-- every byte of the list fits
abbrev AreBytes : List ℕ → Type 0
AreBytes [] = true ≡ true
AreBytes (d ∷ ds) = (d < 256) × AreBytes ds

to_bytes-AreBytes : (w n : ℕ) → AreBytes (to_bytes w n)
to_bytes-AreBytes zero n = refl
to_bytes-AreBytes (suc w) n = (omega arith, to_bytes-AreBytes w (n / 256))

read_guid_byte-eq :
    {b : ByteBuffer} (d : ℕ) (rest : List ℕ)
    → IsStream b
    → unread b ≡ d ∷ rest
    → (read_guid_byte b ≡ ok (d, skipped b 1))
      × IsStream (skipped b 1)
      × (unread (skipped b 1) ≡ rest)
unfolding read_guid_byte
read_guid_byte-eq {b} d rest s e =
    let (r, t, u) = read_value-eq {b = b} 1 (d ∷ []) rest s e refl in
    let z : of_bytes (d ∷ []) ≡ d = omega arith in
    (ground (arith, r, z, ap length e, length-drop b.rpos b.storage, s.inside, s.small), t, u)

half_mask : (c mark i m : ℕ) → c < 2 → mark / 2 ^ i ≡ c + 2 * m → mark / 2 ^ suc i ≡ m
half_mask c mark i m h e =
    ap (λ k. mark / k) (pow-suc 2 i) ∙ (sym (div-div-eq-div-mul mark (2 ^ i) 2) ∙ omega (arith, e))

eight_more : (n : ℕ) → 2 ^ (suc (suc (suc (suc (suc (suc (suc (suc n)))))))) ≡ 256 * 2 ^ n
eight_more n = omega (
  arith,
  pow-suc 2 n,
  pow-suc 2 (suc n),
  pow-suc 2 (suc (suc n)),
  pow-suc 2 (suc (suc (suc n))),
  pow-suc 2 (suc (suc (suc (suc n)))),
  pow-suc 2 (suc (suc (suc (suc (suc n))))),
  pow-suc 2 (suc (suc (suc (suc (suc (suc n)))))),
  pow-suc 2 (suc (suc (suc (suc (suc (suc (suc n))))))),
)

next_byte : (i : ℕ) → 2 ^ (suc i * 8) ≡ 256 * 2 ^ (i * 8)
next_byte i =
    let e : suc i * 8 ≡ (suc (suc (suc (suc (suc (suc (suc (suc (i * 8))))))))) = omega arith in
    ap (λ k. 2 ^ k) e ∙ eight_more (i * 8)

value-cons : (d x i : ℕ) → (d + 256 * x) * 2 ^ (i * 8) ≡ d * 2 ^ (i * 8) + x * 2 ^ (suc i * 8)
value-cons d x i = grind (arith, ap (λ (t : ℕ). x * t) (next_byte i))

byte_below :
    (d i guid : ℕ) → d < 256 → guid < 2 ^ (i * 8) → guid + d * 2 ^ (i * 8) < 2 ^ (suc i * 8)
byte_below d i guid h g = grind (arith, next_byte i)

-- The loop reads the bytes that are in the mask.
unpack_loop-eq :
    (ds : List ℕ) (i mark guid : ℕ) (b : ByteBuffer) (rest : List ℕ)
    → IsStream b
    → AreBytes ds
    → mark / 2 ^ i ≡ mask_of ds
    → guid < 2 ^ (i * 8)
    → unread b ≡ present ds ++ rest
    → (b' : ByteBuffer) × (unpack_loop (length ds) i mark guid b
        ≡ ok (guid + of_bytes ds * 2 ^ (i * 8), b'))
      × (unread b' ≡ rest)
unfolding unpack_loop
unpack_loop-eq [] i mark guid b rest s a m g e = (b, ground arith, e)
unpack_loop-eq (d ∷ ds) i mark guid b rest s (x, a) m g e = elim (Bool-cases (d == 0)) [
  | inl q ↦
      (let k : mark / 2 ^ i ≡ 0 + 2 * mask_of ds = ground (arith, m, q) in
        let t : bit_and mark (2 ^ i) ≡ 0 =
          bit_test i mark
          ∙ (let w : mark / 2 ^ i % 2 ≡ 0 = omega (arith, k) in
              ap (λ j. j * 2 ^ i) w ∙ omega arith) in
        let (b', r, u) =
          unpack_loop-eq ds (suc i) mark guid b rest s a
            (half_mask 0 mark i (mask_of ds) (omega arith) k) (omega (arith, next_byte i, g))
            (ground (arith, e, q)) in
        let v : guid + of_bytes ds * 2 ^ (suc i * 8) ≡ guid + of_bytes (d ∷ ds) * 2 ^ (i * 8) =
          (let z : d ≡ 0 = ground (arith, q) in
            let y : d * 2 ^ (i * 8) ≡ 0 = ap (λ j. j * 2 ^ (i * 8)) z ∙ omega arith in
            omega (arith, value-cons d (of_bytes ds) i, y)) in
        (b', ground (arith, t, r, v), u))
  | inr q ↦
      (let k : mark / 2 ^ i ≡ 1 + 2 * mask_of ds = ground (arith, m, q) in
        let t : bit_and mark (2 ^ i) ≡ 2 ^ i =
          bit_test i mark
          ∙ (let w : mark / 2 ^ i % 2 ≡ 1 = omega (arith, k) in
              ap (λ j. j * 2 ^ i) w ∙ omega arith) in
        let (y, s', u) = read_guid_byte-eq d (present ds ++ rest) s (ground (arith, e, q)) in
        let o = bit_or_shifted (i * 8) guid d g in
        let (b', r, w) =
          unpack_loop-eq ds (suc i) mark (guid + d * 2 ^ (i * 8)) (skipped b 1) rest s' a
            (half_mask 1 mark i (mask_of ds) (omega arith) k) (byte_below d i guid x g) u in
        let v : guid + d * 2 ^ (i * 8) + of_bytes ds * 2 ^ (suc i * 8)
            ≡ guid + of_bytes (d ∷ ds) * 2 ^ (i * 8) =
          omega (arith, value-cons d (of_bytes ds) i) in
        (b', ground (arith, t, y, o, r, v, power_le 0 i), w))
]

length-present : (ds : List ℕ) → length (present ds) ≤ length ds
length-present [] = omega arith
length-present (d ∷ ds) = elim (Bool-cases (d == 0)) [
  | inl q ↦ ground (arith, q, length-present ds)
  | inr q ↦ ground (arith, q, length-present ds)
]

mask_of_lt : (ds : List ℕ) → mask_of ds < 2 ^ length ds
mask_of_lt [] = omega arith
mask_of_lt (d ∷ ds) = elim (Bool-cases (d == 0)) [
  | inl q ↦
      (let m : mask_of (d ∷ ds) ≡ 0 + 2 * mask_of ds = ground (arith, q) in
        omega (arith, m, mask_of_lt ds, pow-suc 2 (length ds)))
  | inr q ↦
      (let m : mask_of (d ∷ ds) ≡ 1 + 2 * mask_of ds = ground (arith, q) in
        omega (arith, m, mask_of_lt ds, pow-suc 2 (length ds)))
]

-- A number of 64 bits that is appended in its packed form to a packet whose bytes are all read is
-- the next that readPackGUID reads, and nothing is left unread.
pub pack_then_read :
    (b : ByteBuffer) (guid : ℕ)
    → IsStream b
    → unread b ≡ []
    → guid < 2 ^ 64
    → length b.storage < max_size
    → (b' : ByteBuffer) × (b'' : ByteBuffer) × (append_pack_guid b guid ≡ ok b')
      × (read_pack_guid b' ≡ ok (guid, b''))
      × (unread b'' ≡ [])
unfolding append_pack_guid read_pack_guid
pack_then_read b guid s e fits room =
    let ds : List ℕ = to_bytes 8 guid in
    let l : length ds ≡ 8 = length-to_bytes 8 guid in
    let p = pack_loop-eq 8 0 guid 0 [] (omega arith) (omega arith) in
    let src : List ℕ = mask_of ds ∷ present ds in
    let short : length src < 10 = omega (arith, l, length-present ds) in
    let x : (pack_loop 8 0 guid 0 []).0 ≡ mask_of ds =
      ap (λ (r : ℕ × List ℕ). r.0) p ∙ omega arith in
    let y : (pack_loop 8 0 guid 0 []).1 ≡ present ds = ap (λ (r : ℕ × List ℕ). r.1) p in
    let packed : (pack_loop 8 0 guid 0 []).0 ∷ (pack_loop 8 0 guid 0 []).1 ≡ src =
      ap (λ m. m ∷ (pack_loop 8 0 guid 0 []).1) x ∙ ap (λ ys. mask_of ds ∷ ys) y in
    let t = appended-IsStream src s (omega (arith, short)) room in
    let u : unread (appended b src) ≡ mask_of ds ∷ (present ds ++ []) =
      unread-appended src s
      ∙ (ap (λ xs. xs ++ src) e ∙ ap (λ ys. mask_of ds ∷ ys) (sym (append-nil (present ds)))) in
    let (r, t', u') = read_guid_byte-eq (mask_of ds) (present ds ++ []) t u in
    let (b'', v, w) =
      unpack_loop-eq ds 0 (mask_of ds) 0 (skipped (appended b src) 1) [] t'
        (to_bytes-AreBytes 8 guid) (omega arith) (omega arith) u' in
    let g : 0 + of_bytes ds * 2 ^ (0 * 8) ≡ guid =
      omega (arith, of_bytes-to_bytes 8 guid (omega arith)) in
    (
      appended b src,
      b'',
      ap (append b) packed ∙ append-eq src s (omega arith) (omega (arith, short)) room,
      ap (λ q. q >>= λ x. unpack_loop 8 0 x.0 0 x.1) r
          ∙ (ap (λ k. unpack_loop k 0 (mask_of ds) 0 (skipped (appended b src) 1)) (sym l)
              ∙ (v ∙ ap (λ n. ok (n, b'')) g)),
      w,
    )
