-- ===== src/Process/Pools.antt =====
-- The engine of src/ride_service/db/engine.py: its pool, filled by sessions and emptied at the end.
use uber_clone_python.Base.{
  ℕ, ⊤, String, ◌≡◌, ◌⊎◌, refl, sym, ap, ◌∙◌, inl, inr, Option, none, some, List, [], ◌∷◌, ◌++◌,
  length, arith, is_some, if◌then◌else◌, Option-cases,
}
use uber_clone_python.Exec.{Result, ok, err, assertion_error, or_raise}
use uber_clone_python.Config.{Settings}
use uber_clone_python.Objects.{object, alter, object-append_cases, object-alter_cases}
use uber_clone_python.Process.{Engine, Process, Libraries}
use uber_clone_python.Process.Background.{configure_engine, use_session, dispose_engine}
use uber_clone_python.Process.Owned.{Named-same, IsOwned}

-- No pool holds a connection.
abbrev pub AllEmpty : List Engine → Type 0
AllEmpty es = (n : ℕ) (e : Engine) → object n es ≡ some e → e.pooled ≡ 0

-- The engines and the two globals that name one.
abbrev pub with_engines : List Engine → Option ℕ → Process → Process
with_engines es name p = record p { engines = es; engine = name; sessionmaker = name }

abbrev empty_pool : Engine → Engine
empty_pool e = record e { pooled = 0 }

with_engines-IsOwned :
    (es : List Engine) (name : Option ℕ) (p : Process)
    → ((n : ℕ) (e : Engine) → object n es ≡ some e → (e.pooled ≡ 0) ⊎ (name ≡ some n))
    → IsOwned p
    → IsOwned (with_engines es name p)
with_engines-IsOwned es name p pools o = record {
  tasks = o.tasks;
  connections = λ n k h is_open.
      Named-same p (with_engines es name p) n k.kind k.loop (λ d. refl) refl refl
        (o.connections n k h is_open);
  pools = pools;
  factory = refl;
}

pub engines-IsOwned :
    (p : Process) (es : List Engine) → AllEmpty es → IsOwned p → IsOwned (record p { engines = es })
engines-IsOwned p es empty o = record {
  tasks = o.tasks;
  connections = λ n k h is_open.
      Named-same p (record p { engines = es }) n k.kind k.loop (λ d. refl) refl refl
        (o.connections n k h is_open);
  pools = λ n e h. inl (empty n e h);
  factory = o.factory;
}

module _ (settings : Settings) (lib : Libraries) where
  -- Only the engine that the global names may hold connections.
  pub dispose_engine-AllEmpty :
      (p : Process)
      → IsOwned p
      → (es : List Engine) × (dispose_engine settings lib p ≡ record p { engines = es })
        × AllEmpty es
  unfolding dispose_engine
  dispose_engine-AllEmpty p o = elim (Option-cases p.engine) [
    | inl missing ↦ (
      p.engines,
      rw missing refl,
      λ n e h. elim (o.pools n e h) [ inl empty ↦ empty | inr named ↦ absurd (ground arith) ],
    )
    | inr (m, found) ↦ (
      alter m empty_pool p.engines,
      rw found refl,
      λ n e h. elim (object-alter_cases m n empty_pool p.engines e h) [
        | inl (apart, old) ↦ elim (o.pools n e old) [
          | inl empty ↦ empty
          | inr named ↦ absurd (apart (ground arith))
        ]
        | inr (was, _, _, now) ↦ ap (λ (x : Engine). x.pooled) now
      ],
    )
  ]

  -- A session on an engine.
  abbrev pooling : Engine → Engine
  pooling e = record e { pooled = lib.pools e.poolclass e.pooled }

  -- What a session does once there is a session factory, or none.
  abbrev session_on : Result ℕ × Process → Result ⊤ × Process
  session_on m = elim m.0 [
    | ok n ↦ (ok tt, record m.1 { engines = alter n pooling m.1.engines })
    | err e ↦ (err e, m.1)
  ]

  -- A process with a session factory.
  abbrev ensured_engine : Process → Process
  ensured_engine p =
      if is_some p.sessionmaker
      then p
      else configure_engine settings lib settings.database_url none p

  use_session-session_on :
      (p : Process)
      → use_session settings lib p
        ≡ session_on (or_raise (ensured_engine p).sessionmaker assertion_error (ensured_engine p))
  unfolding use_session
  use_session-session_on p = refl

  configured-IsOwned :
      (url : String) (pool : Option String) (p : Process)
      → p.engine ≡ none
      → IsOwned p
      → IsOwned (configure_engine settings lib url pool p)
  unfolding configure_engine
  configured-IsOwned url pool p missing o =
      let new : Engine = record { database_url = url; poolclass = pool; pooled = 0 } in
      with_engines-IsOwned (p.engines ++ new ∷ []) (some (length p.engines)) p
        (λ n e h. elim (object-append_cases n p.engines new e h) [
          | inl old ↦ elim (o.pools n e old) [
            | inl empty ↦ inl empty
            | inr named ↦ absurd (ground arith)
          ]
          | inr (_, this) ↦ inl (sym (ap (λ (x : Engine). x.pooled) this))
        ])
        o

  pooled-IsOwned :
      (m : ℕ) (p : Process)
      → p.engine ≡ some m
      → IsOwned p
      → IsOwned (with_engines (alter m pooling p.engines) (some m) p)
  pooled-IsOwned m p found o =
      with_engines-IsOwned (alter m pooling p.engines) (some m) p
        (λ n e h. elim (object-alter_cases m n pooling p.engines e h) [
          | inl (apart, old) ↦ elim (o.pools n e old) [
            | inl empty ↦ inl empty
            | inr named ↦ inr (sym found ∙ named)
          ]
          | inr (was, same, _, _) ↦ inr (ap some same)
        ])
        o

  session_ready :
      (m : ℕ) (p : Process)
      → p.sessionmaker ≡ some m
      → p.engine ≡ some m
      → use_session settings lib p ≡ (ok tt, with_engines (alter m pooling p.engines) (some m) p)
  session_ready m p maker found =
      use_session-session_on p
      ∙ ap (λ q. session_on (or_raise q.sessionmaker assertion_error q))
          (ap
            (λ (o : Option ℕ).
              if is_some o then p else configure_engine settings lib settings.database_url none p)
            maker)
      ∙ ap (λ o. session_on (or_raise o assertion_error p)) maker
      ∙ λ i. (
        ok tt,
        record p { engines = alter m pooling p.engines; engine = found i; sessionmaker = maker i },
      )

  session_new :
      (p : Process)
      → p.sessionmaker ≡ none
      → use_session settings lib p ≡ (
        ok tt,
        (let q = configure_engine settings lib settings.database_url none p in
            with_engines (alter (length p.engines) pooling q.engines) (some (length p.engines)) q),
      )
  unfolding configure_engine
  session_new p maker =
      use_session-session_on p
      ∙ ap (λ q. session_on (or_raise q.sessionmaker assertion_error q))
          (ap
            (λ (o : Option ℕ).
              if is_some o then p else configure_engine settings lib settings.database_url none p)
            maker)

  -- A session succeeds, and changes nothing but the engines and their names.
  pub use_session-IsOwned :
      (p : Process)
      → IsOwned p
      → (es : List Engine) × (name : Option ℕ) × (use_session settings lib p
          ≡ (ok tt, with_engines es name p))
        × IsOwned (with_engines es name p)
  unfolding configure_engine
  use_session-IsOwned p o = elim (Option-cases p.sessionmaker) [
    | inl missing ↦
        let q = configure_engine settings lib settings.database_url none p in
        (
          alter (length p.engines) pooling q.engines,
          some (length p.engines),
          session_new p missing,
          pooled-IsOwned (length p.engines) q refl
              (configured-IsOwned settings.database_url none p (sym o.factory ∙ missing) o),
        )
    | inr (m, there) ↦
        let found : p.engine ≡ some m = sym o.factory ∙ there in
        (
          alter m pooling p.engines,
          some m,
          session_ready m p there found,
          pooled-IsOwned m p found o,
        )
  ]
