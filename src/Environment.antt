-- ===== src/Environment.antt =====
-- `Get` of pkg/env/envvar.go. The parameters come as a map in the source, and here in the order in
-- which its loop happens to take them; a default that is no text panics.
use sa_builder.Base.{Bytes, List, [], ◌∷◌, panic, M, ◌>>=◌, ◌>>◌, pure, call}
use sa_builder.System.{Call, System}
use sa_builder.Cookoo.{Contexts, Value, text}

module _ (sys : System) where
  -- The expanded default, which is put into the environment.
  unfoldable pub use_default : Bytes → Value → M Call Bytes
  use_default name (text def) = do
    val ← call (Call.expand_env def) (λ h. System.expand_env sys h def)
    call {A = Unit {0}} (Call.setenv name val) (λ h. tt)
    pure val
  use_default name _ = λ h. (panic, h)

  -- The variable, or the default where it is unset or empty.
  unfoldable pub get_one : Bytes → Value → Bytes → M Call Bytes
  get_one name def [] = use_default name def
  get_one name def (c ∷ val) = pure (c ∷ val)

  module _ (C : Contexts) where
    open C use {Context, put}

    -- The loop over the parameters, and the context after it.
    unfoldable pub get_env : List (Bytes × Value) → Context → M Call Context
    get_env [] cxt = pure cxt
    get_env ((name, def) ∷ params) cxt = do
      found ← call (Call.getenv name) (λ h. System.getenv sys h name)
      val ← get_one name def found
      get_env params (put cxt name (text val))
