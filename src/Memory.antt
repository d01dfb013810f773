-- ===== src/Memory.antt =====
-- An environment in memory that meets the assumptions, on which the model runs.
use uber_clone_python.Base.{
  ℕ, zero, suc, ◌+◌, ◌≤◌, ◌<◌, ◌-◌, ◌*◌, ◌/◌, ◌^◌, ⊤, String, ◌==◌, eq_iff, eq_refl, ◌≡◌, refl, sym,
  ap, ◌∙◌, ◌≢◌, ◌↔◌, ◌⊎◌, inl, inr, Bool, true, false, not, ◌&&◌, ◌||◌, Option, none, some, List,
  [], ◌∷◌, ◌++◌, map, Mem, not-mem-nil, All, length, is_empty, is_some, is_text, head?, contains,
  arith, ltb, leb, eqb, if◌then◌else◌, Bool-cases, Option-cases,
}
use uber_clone_python.Exec.{
  Error, http, integrity_error, value_error, decimal_error, redis_error, Result, ok, err, Exec,
  pure, raise, lift, gets, or_raise, ◌>>=◌, ◌>>◌, raise_if, modify,
}
use uber_clone_python.Models.{
  Float, DateTime, Role, rider, driver, RideStatus, requested, matched, in_progress, completed,
  cancelled, role_value, status_value, role_of, status_of, is_role, is_status, User, Driver, Ride,
  Rating, UserRow, DriverRow, RideRow, RatingRow,
}
use uber_clone_python.Decimal.{Decimal}
use uber_clone_python.Env.{Env, World, Table}
pub mod Rows
use Prim.Native.Char.{Char}
use Prim.Native.String
use mathlib.Core.Path.{subst}
use mathlib.Core.Option.{some-injective}
use text.Mathlib.TextLemmas.{tail-eq_of_cons-eq, nil≢cons, cons≢nil}
use uber_clone_python.Base.{ℤ, pos, negsuc}
use uber_clone_python.Decimal.{finite, nan}
use uber_clone_python.Env.{FloatOps, SetOps, ExpiringSetOps, GeoOps, StringOps}
use uber_clone_python.Env.Laws.{IsPlainSet, IsLawful}
use uber_clone_python.Memory.Rows.{memory_table, memory_table-IsTable}

-- Numbers of hundredths stand for the floats; only the witnesses compute with them.
abbrev whole : Decimal → ℕ
whole (finite c s) = c * 100 / 10 ^ s
whole nan = 0

abbrev hundreds : ℤ → ℕ
hundreds (pos n) = n * 100
hundreds (negsuc n) = 0

abbrev pub memory_floats : FloatOps
memory_floats = record {
  literal = λ n k. n * 100 / 10 ^ k;
  add = λ a b. a + b;
  sub = λ a b. a - b;
  mul = λ a b. a * b / 100;
  div = λ a b. a * 100 / b;
  radians = λ a. a;
  square = λ a. a;
  sin = λ a. some a;
  cos = λ a. some 100;
  asin = λ a. some a;
  sqrt = λ a. some a;
  truncate = λ a. some (pos (a / 100));
  to_decimal = λ a. finite a 2;
  of_decimal = whole;
  of_int = hundreds;
}

abbrev memory_sets : SetOps
memory_sets = record {
  State = String → String → Bool;
  sadd = λ c k m j n. if k == j then (if m == n then true else c j n) else c j n;
  srem = λ c k m j n. if k == j then (if m == n then false else c j n) else c j n;
  sismember = λ c. c;
}

abbrev memory_expiring : ExpiringSetOps
memory_expiring = record {
  State = String → List String;
  sadd = λ c t k ms j. if k == j then ms ++ c j else c j;
  expire = λ c t k ttl. c;
  smembers = λ c t k. c k;
  delete = λ c t k j. if k == j then [] else c j;
}

-- The distance is not modelled: every member is at distance 0.
abbrev members : ℕ → List (String × (Float × Float)) → List (String × Float)
members zero s = []
members (suc n) [] = []
members (suc n) ((m, _) ∷ s) = (m, 0) ∷ members n s

length-members : (n : ℕ) (s : List (String × (Float × Float))) → length (members n s) ≤ n
length-members zero s = omega arith
length-members (suc n) [] = omega arith
length-members (suc n) (x ∷ s) = omega (arith, length-members n s)

abbrev without : String → List (String × (Float × Float)) → List (String × (Float × Float))
without m [] = []
without m ((j, p) ∷ s) = let rest = without m s in if j == m then rest else (j, p) ∷ rest

abbrev position : String → List (String × (Float × Float)) → Option (Float × Float)
position m [] = none
position m ((j, p) ∷ s) = if j == m then some p else position m s

abbrev memory_geo : GeoOps
memory_geo = record {
  State = List (String × (Float × Float));
  geoadd = λ s k lng lat m. some ((m, (lng, lat)) ∷ without m s);
  zrem = λ s k m. without m s;
  geopos = λ s k m. position m s;
  geosearch = λ s k lng lat radius n. some (members n s);
}

abbrev memory_strings : StringOps
memory_strings = record {
  State = ℕ → String → Option String;
  get = λ s t k. s t k;
  set_ex = λ s t k v ttl t' j.
      if k == j then (if ltb t' (t + ttl * 1000000) then some v else none) else s t' j;
}

abbrev memory_uuid : ℕ → String
memory_uuid zero = String.[]
memory_uuid (suc n) = String.◌∷◌ "a" (memory_uuid n)

memory_uuid-injective : (m n : ℕ) → memory_uuid m ≡ memory_uuid n → m ≡ n
memory_uuid-injective zero zero h = refl
memory_uuid-injective zero (suc n) h = absurd (nil≢cons h)
memory_uuid-injective (suc m) zero h = absurd (cons≢nil h)
memory_uuid-injective (suc m) (suc n) h = ap suc (memory_uuid-injective m n (tail-eq_of_cons-eq h))

abbrev pub memory : Env
memory = record {
  floats = memory_floats;
  users = memory_table (λ r. r.id);
  drivers = memory_table (λ r. r.user_id);
  rides = memory_table (λ r. r.id);
  ratings = memory_table (λ r. r.id);
  admits_user = λ _ _. true;
  admits_driver = λ _ _ _. true;
  admits_ride = λ _ _. true;
  admits_rating = λ _ _. true;
  between = λ x low high. leb low x && leb x high;
  sets = memory_sets;
  expiring = memory_expiring;
  geo = memory_geo;
  strings = memory_strings;
  uuid = memory_uuid;
  decimal_text = λ _. "1.00";
  text_decimal = λ _. finite 100 2;
  two_places_text = λ _. "0.00";
  json_dumps = λ _. "{}";
}

pub memory-IsLawful : IsLawful memory
memory-IsLawful = record {
  users = memory_table-IsTable (λ r. r.id);
  drivers = memory_table-IsTable (λ r. r.user_id);
  rides = memory_table-IsTable (λ r. r.id);
  ratings = memory_table-IsTable (λ r. r.id);
  sets = record { sismember-sadd = λ c k m j n. refl; sismember-srem = λ c k m j n. refl };
  strings = record { get-set_ex = λ s now k v ttl later j h. refl };
  geo = record {
    geosearch_count = λ s k lng lat radius n results h.
        subst (λ r. length r ≤ n) (some-injective _ _ h) (length-members n s);
  };
  uuid_injective = memory_uuid-injective;
}

-- A service that has just started, with nothing stored.
abbrev pub empty : World memory
empty = record {
  users = [];
  drivers = [];
  rides = [];
  ratings = [];
  sets = λ _ _. false;
  expiring = λ _. [];
  geo = [];
  strings = λ _ _. none;
  kafka = [];
  published = [];
  registry = record { emitters = []; queues = [] };
  now = 0;
  drawn = 0;
}
