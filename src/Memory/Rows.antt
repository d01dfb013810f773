-- ===== src/Memory/Rows.antt =====
-- A table in memory: the newest row of a key comes first, and hides older ones.
use uber_clone_python.Base.{
  String, ◌==◌, eq_iff, eq_refl, ◌≡◌, ◌≢◌, refl, inl, inr, Bool, true, false, Option, none, some,
  List, [], ◌∷◌, Mem, All, contains, arith, if◌then◌else◌, Bool-cases,
}
use uber_clone_python.Env.{Table}
use uber_clone_python.Env.Laws.{IsTable, Distinct}
use mathlib.Core.List.{mem-cons_self, mem-cons_of_mem}

module _ {Row : Type 0} (key : Row → String) where
  abbrev pub find : List Row → String → Option Row
  find [] k = none
  find (r ∷ rows) k = if key r == k then some r else find rows k

  -- The rows that show, of keys not seen yet, which the clause accepts.
  abbrev pub showing : (Row → Bool) → List String → List Row → List Row
  showing p seen [] = []
  showing p seen (r ∷ rows) =
      let rest = showing p (key r ∷ seen) rows in
      if contains seen (key r) then showing p seen rows else (if p r then r ∷ rest else rest)

  abbrev pub memory_table : Table Row
  memory_table = record {
    State = List Row;
    get = find;
    put = λ rows r. r ∷ rows;
    select = λ rows p. showing p [] rows;
    ordered = λ rows p _. showing p [] rows;
  }

  find_key : (rows : List Row) (k : String) (r : Row) → find rows k ≡ some r → key r ≡ k
  find_key [] k r h = cc
  find_key (x ∷ rows) k r h = ground (arith, eq_iff (key x) k, find_key rows k r)

  All-map :
      {P Q : Row → Type 0} (rows : List Row) → ((r : Row) → P r → Q r) → All P rows → All Q rows
  All-map [] f h = tt
  All-map (r ∷ rows) f h = (f r h.0, All-map rows f h.1)

  abbrev Good : (Row → Bool) → List String → List Row → Row → Type 0
  Good p seen rows r = (contains seen (key r) ≡ false) × (p r ≡ true) × (find rows (key r) ≡ some r)

  behind :
      (p : Row → Bool) (x : Row) (seen : List String) (rows : List Row) (r : Row)
      → Good p (key x ∷ seen) rows r
      → Good p seen (x ∷ rows) r
  behind p x seen rows r h = ground (arith, eq_iff (key x) (key r))

  skipped :
      (p : Row → Bool) (x : Row) (seen : List String) (rows : List Row)
      → contains seen (key x) ≡ true
      → (r : Row) → Good p seen rows r
      → Good p seen (x ∷ rows) r
  skipped p x seen rows c r h = ground (arith, eq_iff (key x) (key r))

  showing_sound :
      (p : Row → Bool) (seen : List String) (rows : List Row)
      → All (Good p seen rows) (showing p seen rows)
  showing_sound p seen [] = tt
  showing_sound p seen (x ∷ rows) = elim (Bool-cases (contains seen (key x))) [
    | inl old ↦ rw old (All-map _ (skipped p x seen rows old) (showing_sound p seen rows))
    | inr new ↦
        let rest = All-map _ (behind p x seen rows) (showing_sound p (key x ∷ seen) rows) in
        elim (Bool-cases (p x)) [
          | inl good ↦ rw (new, good) ((new, good, ground (arith, eq_refl (key x))), rest)
          | inr bad ↦ rw (new, bad) rest
        ]
  ]

  showing_complete :
      (p : Row → Bool) (seen : List String) (rows : List Row) (k : String) (r : Row)
      → find rows k ≡ some r
      → p r ≡ true
      → contains seen k ≡ false
      → Mem r (showing p seen rows)
  showing_complete p seen [] k r h good out = cc
  showing_complete p seen (x ∷ rows) k r h good out = elim (Bool-cases (key x == k)) [
    | inl same ↦
        let x_r : x ≡ r = ground arith in
        let fresh : contains seen (key x) ≡ false = rw ((eq_iff (key x) k).0 same) out in
        let shows : p x ≡ true = rw x_r good in rw (fresh, shows) (rw x_r mem-cons_self)
    | inr other ↦
        let deeper : find rows k ≡ some r = ground arith in
        elim (Bool-cases (contains seen (key x))) [
          | inl old ↦ rw old (showing_complete p seen rows k r deeper good out)
          | inr new ↦
              let rest = showing_complete p (key x ∷ seen) rows k r deeper good (ground arith) in
              elim (Bool-cases (p x)) [
                | inl shows ↦ rw (new, shows) (mem-cons_of_mem x rest)
                | inr hides ↦ rw (new, hides) rest
              ]
        ]
  ]

  fresh-key :
      (p : Row → Bool) (x : Row) (seen : List String) (rows : List Row) (r : Row)
      → Good p (key x ∷ seen) rows r
      → key r ≢ key x
  fresh-key p x seen rows r h same = ground (arith, eq_iff (key x) (key r))

  showing-Distinct :
      (p : Row → Bool) (seen : List String) (rows : List Row) → Distinct key (showing p seen rows)
  showing-Distinct p seen [] = tt
  showing-Distinct p seen (x ∷ rows) = elim (Bool-cases (contains seen (key x))) [
    | inl old ↦ rw old (showing-Distinct p seen rows)
    | inr new ↦
        let rest = showing-Distinct p (key x ∷ seen) rows in
        elim (Bool-cases (p x)) [
          | inl good ↦
              rw (new, good)
                (All-map _ (fresh-key p x seen rows) (showing_sound p (key x ∷ seen) rows), rest)
          | inr bad ↦ rw (new, bad) rest
        ]
  ]

  Good-row :
      (p : Row → Bool) (rows : List Row) (r : Row)
      → Good p [] rows r
      → (p r ≡ true) × (find rows (key r) ≡ some r)
  Good-row p rows r h = (h.1, h.2)

  pub memory_table-IsTable : IsTable memory_table key
  memory_table-IsTable = record {
    get_key = find_key;
    get-put = λ rows r k. refl;
    select_sound = λ rows p. All-map _ (Good-row p rows) (showing_sound p [] rows);
    select_complete = λ rows p k r h good. showing_complete p [] rows k r h good refl;
    select_distinct = λ rows p. showing-Distinct p [] rows;
  }
