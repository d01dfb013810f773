-- ===== src/Tests/Gateway.antt =====
-- Libraries of the web layer in memory, which meet their assumptions: a token is its secret and
-- its quoted claims, a hash is the password, and no call is over a limit.
use Prim.Native.Char.{Char, code}
use uber_clone_python.Base.{
  List, [], ◌∷◌, ◌+◌, ℕ, zero, suc, String, ◌==◌, eq_refl, ◌≡◌, refl, ap, ◌∙◌, ⊤, true, Option,
  none, some, arith, ltb, eqb, if◌then◌else◌, ◌<>◌, ◌*◌, ◌/◌,
}
use uber_clone_python.Models.{DateTime}
use uber_clone_python.Config.{default_settings}
use uber_clone_python.Text.{after_prefix, after_prefix-append}
use uber_clone_python.Memory.{memory, empty}
use uber_clone_python.Web.{Web, Site, HttpRequest, Payload, TokenOps, BcryptOps, LimitOps}
use uber_clone_python.Web.Laws.{IsFixedWindow, IsToken, IsBcrypt}

-- A text with a mark before each character and a dot behind it.
abbrev quote : String → String → String
quote String.[] rest = String.◌∷◌ "." rest
quote (String.◌∷◌ c s) rest = String.◌∷◌ "x" (String.◌∷◌ c (quote s rest))

abbrev put_before : Char → Option (String × String) → Option (String × String)
put_before c none = none
put_before c (some (s, rest)) = some (String.◌∷◌ c s, rest)

abbrev unquote : String → Option (String × String)
unquote String.[] = none
unquote (String.◌∷◌ c String.[]) = if eqb (code c) b'.' then some ("", "") else none
unquote (String.◌∷◌ c (String.◌∷◌ d s)) =
    let rest = unquote s in
    if eqb (code c) b'.' then some ("", String.◌∷◌ d s) else put_before d rest

unquote-quote : (s rest : String) → unquote (quote s rest) ≡ some (s, rest)
unquote-quote String.[] String.[] = refl
unquote-quote String.[] (String.◌∷◌ c s) = refl
unquote-quote (String.◌∷◌ c s) rest = ap (put_before c) (unquote-quote s rest)

abbrev tally : ℕ → String
tally zero = ""
tally (suc n) = String.◌∷◌ "n" (tally n)

abbrev count : String → ℕ
count String.[] = 0
count (String.◌∷◌ c s) = suc (count s)

count-tally : (n : ℕ) → count (tally n) ≡ n
count-tally zero = refl
count-tally (suc n) = ap suc (count-tally n)

-- The three parts of a token behind its secret.
abbrev seconds_part : DateTime → String → String → Option (String × String) → Option Payload
seconds_part now sub role none = none
seconds_part now sub role (some (n, _)) =
    if ltb now (count n * 1000000) then some (record { sub = some sub; role = some role }) else none

abbrev role_part : DateTime → String → Option (String × String) → Option Payload
role_part now sub none = none
role_part now sub (some (role, s)) = seconds_part now sub role (unquote s)

abbrev sub_part : DateTime → Option (String × String) → Option Payload
sub_part now none = none
sub_part now (some (sub, s)) = role_part now sub (unquote s)

abbrev signed_part : DateTime → Option String → Option Payload
signed_part now none = none
signed_part now (some s) = sub_part now (unquote s)

abbrev memory_tokens : TokenOps
memory_tokens = record {
  encode = λ secret c. secret <> quote c.sub (quote c.role (quote (tally (c.exp / 1000000)) ""));
  decode = λ secret now token. signed_part now (after_prefix secret token);
}

pub memory_tokens-IsToken : IsToken memory_tokens
memory_tokens-IsToken = record {
  decode-encode = λ secret c now _.
      let seconds = quote (tally (c.exp / 1000000)) "" in
      ap (signed_part now) (after_prefix-append secret (quote c.sub (quote c.role seconds)))
      ∙ ap (sub_part now) (unquote-quote c.sub (quote c.role seconds))
      ∙ ap (role_part now c.sub) (unquote-quote c.role seconds)
      ∙ ap (seconds_part now c.sub c.role) (unquote-quote (tally (c.exp / 1000000)) "")
      ∙ ap
          (λ n.
            if ltb now (n * 1000000)
            then some (record { sub = some c.sub; role = some c.role })
            else none)
          (count-tally (c.exp / 1000000));
}

abbrev memory_bcrypt : BcryptOps
memory_bcrypt = record {
  hashpw = λ n password. some password;
  checkpw = λ password hash. some (password == hash);
}

pub memory_bcrypt-IsBcrypt : IsBcrypt memory_bcrypt
memory_bcrypt-IsBcrypt = record {
  checkpw-hashpw = λ n password hash h. ground (arith, eq_refl password, eq_refl hash);
}

abbrev free_limits : LimitOps
free_limits = record { State = ⊤; hit = λ s now amount multiples key. (true, s) }

-- A token lives for two seconds.
abbrev pub gateway : Web memory
gateway = record {
  tokens = memory_tokens;
  bcrypt = memory_bcrypt;
  limits = free_limits;
  upper = λ s. s;
  settings = record default_settings { jwt_expiration_ms = 2000 };
}

abbrev pub front : Site gateway
front = record { world = empty; counters = tt; salts = 0 }

abbrev pub bare : HttpRequest
bare = record {
  authorization = none;
  auth_token = none;
  x_forwarded_for = none;
  client_host = none;
}

-- The calls of a limiter, the newest first.
abbrev calls_of : String → List String → ℕ
calls_of key [] = 0
calls_of key (k ∷ keys) = (if k == key then 1 else 0) + calls_of key keys

abbrev counting_limits : LimitOps
counting_limits = record {
  State = List String;
  hit = λ keys now amount multiples key. (ltb (calls_of key keys) amount, key ∷ keys);
}

pub counting_limits-IsFixedWindow : IsFixedWindow counting_limits
counting_limits-IsFixedWindow = record {
  tally = λ keys now amount multiples key. calls_of key keys;
  hit_granted = λ keys now amount multiples key. refl;
  tally-hit = λ keys now amount multiples key other. refl;
}

-- A gateway that lets two attempts through.
abbrev pub strict : Web memory
strict = record {
  tokens = memory_tokens;
  bcrypt = memory_bcrypt;
  limits = counting_limits;
  upper = λ s. s;
  settings = record default_settings {
    jwt_expiration_ms = 2000;
    auth_attempts_limit_per_15_min = 2;
  };
}
