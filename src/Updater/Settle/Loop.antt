-- ===== src/Updater/Settle/Loop.antt =====
-- What the loop leaves in the table: the invariant of its rounds.
use mmo_wow.Prelude.{
  ℕ, ◌≡◌, ◌≢◌, refl, sym, ap, ◌∙◌, Bool, true, false, ◌||◌, List, [], ◌∷◌, none, some, inl, inr,
  arith, Option-cases,
}
use mmo_wow.Prelude.Bytes.{bytes_eq, bytes_eq_refl}
use mmo_wow.Updater.{
  Row, File, Settings, find_row, name_of_hash, is_available, Progress, update_file, update_files,
}
use mmo_wow.Updater.Decide.{Round, update_file-Round, find-erased}
use mmo_wow.Updater.Follow.{AreDistinct}
use mmo_wow.Updater.Table.{AreRows, find-erased_none, name_of_hash-row}
use mmo_wow.Updater.Settle.{HasRow, Effect, IsReady, update_file-Effect}

module _ (hash_of : List ℕ → List ℕ) where
  -- whether one of the files has the hash
  abbrev pub has_hash : List ℕ → List File → Bool
  has_hash hash [] = false
  has_hash hash (f ∷ files) =
      (elim f.content [ none ↦ false | some text ↦ bytes_eq (hash_of text) hash ])
      || has_hash hash files

  -- No two files have the same hash.
  abbrev pub AreApart : List File → Type 0
  AreApart [] = true ≡ true
  AreApart (f ∷ files) =
      ((text : List ℕ) → f.content ≡ some text → has_hash (hash_of text) files ≡ false)
      × AreApart files

  -- Every file has its row.
  abbrev pub AreSettled : List Row → List File → Type 0
  AreSettled table [] = true ≡ true
  AreSettled table (f ∷ files) = HasRow hash_of table f × AreSettled table files

module _ (hash_of : List ℕ → List ℕ) (c : Settings) (available : List File) (first : List Row) where
  abbrev pub AreReady : List File → Progress → Type 0
  AreReady [] p = true ≡ true
  AreReady (f ∷ files) p = IsReady hash_of c available first f p × AreReady files p

  pub start-AreReady :
      (files : List File) (p : Progress)
      → p.applied ≡ first
      → p.database.table ≡ first
      → AreReady files p
  start-AreReady [] p a b = refl
  start-AreReady (f ∷ files) p a b = (
    record {
      applied-eq = ap (find_row f.file_name) a;
      table-eq = ap (find_row f.file_name) b;
      old-eq = λ text old e o v. ap (find_row old) b;
    },
    start-AreReady files p a b,
  )

  -- After a round, the other files are still ready.
  ready-later :
      (f : File) (p q : Progress)
      → AreRows first
      → is_available f.file_name available ≡ true
      → Effect hash_of c available first f p q
      → ((n : List ℕ)
          → is_available n available ≡ true
          → n ≢ f.file_name
          → find_row n q.applied ≡ find_row n p.applied)
      → (files : List File) → is_available f.file_name files ≡ false
      → ((text : List ℕ) → f.content ≡ some text → has_hash hash_of (hash_of text) files ≡ false)
      → ((n : List ℕ) → is_available n files ≡ true → is_available n available ≡ true)
      → AreReady files p
      → AreReady files q
  ready-later f p q d a t k [] n h w r = refl
  ready-later f p q d a t k (g ∷ files) n h w (r, rs) =
      let ga : is_available g.file_name available ≡ true =
        w g.file_name (ground (arith, bytes_eq_refl g.file_name)) in
      let ne : g.file_name ≢ f.file_name =
        λ z. ground (arith, n, ap (λ y. bytes_eq y f.file_name) z, bytes_eq_refl f.file_name) in
      (
        record {
          applied-eq = k g.file_name ga ne ∙ r.applied-eq;
          table-eq = t.keeps g.file_name ne (λ text e. inl ga) ∙ r.table-eq;
          old-eq = λ text old e o v.
              t.keeps old (λ z. ground (arith, a, v, ap (λ y. is_available y available) z))
                (λ text' e'. inr (other text text' old e e' o))
              ∙ r.old-eq text old e o v;
        },
        ready-later f p q d a t k files (ground (arith, n)) (λ text e. ground (arith, h text e))
            (λ m y. w m (ground (arith, y))) rs,
      )
    where
      other :
          (text text' old : List ℕ)
          → g.content ≡ some text
          → f.content ≡ some text'
          → name_of_hash (hash_of text) first ≡ some old
          → name_of_hash (hash_of text') first ≢ some old
      other text text' old e e' o z =
          let (r1, x1, y1) = name_of_hash-row (hash_of text) first old d o in
          let (r2, x2, y2) = name_of_hash-row (hash_of text') first old d z in
          let s : r1 ≡ r2 = ground (arith, x1, x2) in
          let u : hash_of text ≡ hash_of text' = sym y1 ∙ (ap (λ (r : Row). r.hash) s ∙ y2) in
          let b : bytes_eq (hash_of text) (hash_of text') ≡ true =
            ap (bytes_eq (hash_of text)) (sym u) ∙ bytes_eq_refl (hash_of text) in
          ground (arith, h text' e', e, b)

  -- What a round takes off the applied rows: of the available files, only its own.
  applied-kept :
      (f : File) (p q : Progress)
      → Round hash_of c available first f p q
      → (n : List ℕ) → is_available n available ≡ true
      → n ≢ f.file_name
      → find_row n q.applied ≡ find_row n p.applied
  applied-kept f p q r n a h = elim r.erased-eq [
    | inl z ↦ ap (find_row n) z ∙ find-erased n f.file_name p.applied h
    | inr (old, v, z) ↦
        ap (find_row n) z
        ∙ find-erased n old p.applied
            (λ y. ground (arith, a, v, ap (λ w. is_available w available) y))
  ]

  applied-none :
      (f : File) (p q : Progress)
      → Round hash_of c available first f p q
      → (n : List ℕ) → find_row n p.applied ≡ none
      → find_row n q.applied ≡ none
  applied-none f p q r n h = elim r.erased-eq [
    | inl z ↦ ap (find_row n) z ∙ find-erased_none n f.file_name p.applied h
    | inr (old, _, z) ↦ ap (find_row n) z ∙ find-erased_none n old p.applied h
  ]

  -- None of the files has a row among the applied ones.
  abbrev pub AreGone : List Row → List File → Type 0
  AreGone rows [] = true ≡ true
  AreGone rows (f ∷ files) = (find_row f.file_name rows ≡ none) × AreGone rows files

  -- what the loop leaves
  pub record Loop (files : List File) (p q : Progress) : Type 0 where
    pub settled : AreSettled hash_of q.database.table files
    pub all_gone : AreGone q.applied files
    pub keeps :
        (n : List ℕ)
        → is_available n available ≡ true
        → is_available n files ≡ false
        → find_row n q.database.table ≡ find_row n p.database.table
    pub stays : (n : List ℕ) → find_row n p.applied ≡ none → find_row n q.applied ≡ none

  pub files-Loop :
      (files : List File) (p q : Progress)
      → AreRows first
      → c.redundancy_checks ≡ true
      → c.archived_redundancy ≡ true
      → AreDistinct files
      → AreApart hash_of files
      → ((n : List ℕ) → is_available n files ≡ true → is_available n available ≡ true)
      → AreReady files p
      → update_files hash_of c available first files p ≡ some q
      → Loop files p q
  unfolding update_files
  files-Loop [] p q d rc ar n h w r e =
      let s : p ≡ q = ground (arith, e) in
      record {
        settled = refl;
        all_gone = refl;
        keeps = λ n a b. ap (λ (z : Progress). find_row n z.database.table) (sym s);
        stays = λ n a. ap (λ (z : Progress). find_row n z.applied) (sym s) ∙ a;
      }
  files-Loop (f ∷ files) p q d rc ar (n, ns) (h, hs) w (r, rs) e =
      elim (Option-cases (update_file hash_of c available first f p)) [
        | inl y ↦ ground (arith, e, y)
        | inr (m, y) ↦
            (let fa : is_available f.file_name available ≡ true =
                w f.file_name (ground (arith, bytes_eq_refl f.file_name)) in
              let t = update_file-Effect hash_of c available first f p m d rc ar fa r y in
              let o = update_file-Round hash_of c available first f p m r.applied-eq y in
              let i =
                files-Loop files m q d rc ar ns hs (λ k z. w k (ground (arith, z)))
                  (ready-later f p m d fa t (applied-kept f p m o) files n h
                    (λ k z. w k (ground (arith, z))) rs)
                  (ground (arith, e, y)) in
              record {
                settled = (
                  record {
                    text = t.has.text;
                    text-eq = t.has.text-eq;
                    row = t.has.row;
                    row-eq = i.keeps f.file_name fa n ∙ t.has.row-eq;
                    hash-eq = t.has.hash-eq;
                  },
                  i.settled,
                );
                all_gone = (i.stays f.file_name t.gone, i.all_gone);
                keeps = λ k a b.
                    i.keeps k a (ground (arith, b))
                    ∙ t.keeps k
                        (λ z.
                          ground (
                            arith,
                            b,
                            ap (λ v. bytes_eq f.file_name v) z,
                            bytes_eq_refl f.file_name,
                          ))
                        (λ text x. inl a);
                stays = λ k a. i.stays k (applied-none f p m o k a);
              })
      ]
