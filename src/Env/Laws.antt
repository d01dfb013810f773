-- ===== src/Env/Laws.antt =====
-- The documented behaviour of the services that the theorems rely on.
use uber_clone_python.Models.{Float}
use uber_clone_python.Base.{
  ℕ, ◌+◌, ◌*◌, ◌≤◌, List, length, ltb, none, String, ◌==◌, ◌≡◌, Bool, true, false, some, Mem, All,
  if◌then◌else◌, ⊤, [], ◌∷◌, ◌≢◌,
}
use uber_clone_python.Env.{Table, SetOps, StringOps, GeoOps, Env}

-- Rows with different keys.
abbrev pub Distinct : {Row : Type 0} → (Row → String) → List Row → Type 0
Distinct key [] = ⊤
Distinct key (r ∷ rows) = All (λ x. key x ≢ key r) rows × Distinct key rows

-- A table maps a primary key to a row, and a SELECT returns the rows that the clause accepts, each
-- of them once.
pub record IsTable {Row : Type 0} (t : Table Row) (key : Row → String) : Type 0 where
  pub get_key : (s : t.State) (k : String) (r : Row) → t.get s k ≡ some r → key r ≡ k
  pub get-put :
      (s : t.State) (r : Row) (k : String)
      → t.get (t.put s r) k ≡ (if key r == k then some r else t.get s k)
  pub select_sound :
      (s : t.State) (p : Row → Bool)
      → All (λ r. (p r ≡ true) × (t.get s (key r) ≡ some r)) (t.select s p)
  pub select_complete :
      (s : t.State) (p : Row → Bool) (k : String) (r : Row)
      → t.get s k ≡ some r
      → p r ≡ true
      → Mem r (t.select s p)
  pub select_distinct : (s : t.State) (p : Row → Bool) → Distinct key (t.select s p)

pub record IsPlainSet (s : SetOps) : Type 0 where
  pub sismember-sadd :
      (c : s.State) (k m j n : String)
      → s.sismember (s.sadd c k m) j n
        ≡ (if k == j then (if m == n then true else s.sismember c j n) else s.sismember c j n)
  pub sismember-srem :
      (c : s.State) (k m j n : String)
      → s.sismember (s.srem c k m) j n
        ≡ (if k == j then (if m == n then false else s.sismember c j n) else s.sismember c j n)

-- SET with EX: the value is there until the time to live, in seconds, is over.
pub record IsExpiring (t : StringOps) : Type 0 where
  pub get-set_ex :
      (s : t.State) (now : ℕ) (k v : String) (ttl later : ℕ) (j : String)
      → now ≤ later
      → t.get (t.set_ex s now k v ttl) later j ≡ (
          if k == j
          then (if ltb later (now + ttl * 1000000) then some v else none)
          else t.get s later j)

-- GEOSEARCH with COUNT returns at most that many members.
pub record IsGeo (g : GeoOps) : Type 0 where
  pub geosearch_count :
      (s : g.State) (k : String) (lng lat radius : Float) (n : ℕ) (results : List (String × Float))
      → g.geosearch s k lng lat radius n ≡ some results
      → length results ≤ n

pub record IsLawful (env : Env) : Type 0 where
  pub users : IsTable env.users (λ r. r.id)
  pub drivers : IsTable env.drivers (λ r. r.user_id)
  pub rides : IsTable env.rides (λ r. r.id)
  pub ratings : IsTable env.ratings (λ r. r.id)
  pub sets : IsPlainSet env.sets
  pub strings : IsExpiring env.strings
  pub geo : IsGeo env.geo
  -- uuid4 does not give the same text twice.
  pub uuid_injective : (m n : ℕ) → env.uuid m ≡ env.uuid n → m ≡ n
