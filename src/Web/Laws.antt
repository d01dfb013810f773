-- ===== src/Web/Laws.antt =====
-- The documented behaviour of the libraries of the web layer that the theorems rely on.
use uber_clone_python.Base.{ℕ, ◌≤◌, String, ◌≡◌, true, none, some, ltb, if◌then◌else◌}
use uber_clone_python.Models.{DateTime}
use uber_clone_python.Base.{◌+◌, ◌==◌, ◌*◌, ◌/◌}
use uber_clone_python.Web.{Claims, TokenOps, BcryptOps, LimitOps}

-- The encoder cuts times down to seconds. Under the secret that signed it, a token decodes to its
-- claims from its time of issue on, until it expires.
pub record IsToken (t : TokenOps) : Type 0 where
  pub decode-encode :
      (secret : String) (c : Claims) (now : DateTime)
      → c.iat ≤ now
      → t.decode secret now (t.encode secret c) ≡ (
          if ltb now (c.exp / 1000000 * 1000000)
          then some (record { sub = some c.sub; role = some c.role })
          else none)

-- A hash accepts the password that it was made of.
pub record IsBcrypt (b : BcryptOps) : Type 0 where
  pub checkpw-hashpw :
      (n : ℕ) (password hash : String)
      → b.hashpw n password ≡ some hash
      → b.checkpw password hash ≡ some true

-- Of the calls for a limit and a key in one window, as many are granted as the limit says; `tally`
-- is how many there were.
pub record IsFixedWindow (l : LimitOps) : Type 0 where
  pub tally : l.State → DateTime → ℕ → ℕ → String → ℕ
  pub hit_granted :
      (s : l.State) (now : DateTime) (amount multiples : ℕ) (key : String)
      → (l.hit s now amount multiples key).0 ≡ ltb (tally s now amount multiples key) amount
  pub tally-hit :
      (s : l.State) (now : DateTime) (amount multiples : ℕ) (key other : String)
      → tally (l.hit s now amount multiples key).1 now amount multiples other
        ≡ (if key == other then 1 else 0) + tally s now amount multiples other
