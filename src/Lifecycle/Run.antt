-- ===== src/Lifecycle/Run.antt =====
-- Sequences of calls on the lifecycle store, and what one call leaves of each record.
use petrosa_cio.Prelude.{Str, List, [], ◌∷◌, Result}
use petrosa_cio.Models.{Env}
use petrosa_cio.Lifecycle
use petrosa_cio.Lifecycle.{Store, Args, Error, LifecycleEvent}

-- A call of a mutating method, with its arguments.
pub data Command {ℓ} (J : Type ℓ) : Type ℓ where
  register : Str → List (Str × J) → Args J → Command J
  characterize admit admit_small reject promote demote retire : Str → Args J → Command J

module _ {ℓ} {J : Type ℓ} where
  -- The call itself.
  unfoldable pub perform : Store J → Env → Command J → Store J × Result Error (LifecycleEvent J)
  perform store env (Command.register id definition args) =
      Lifecycle.register store env id definition args
  perform store env (Command.characterize id args) = Lifecycle.characterize store env id args
  perform store env (Command.admit id args) = Lifecycle.admit store env id args
  perform store env (Command.admit_small id args) = Lifecycle.admit_small store env id args
  perform store env (Command.reject id args) = Lifecycle.reject store env id args
  perform store env (Command.promote id args) = Lifecycle.promote store env id args
  perform store env (Command.demote id args) = Lifecycle.demote store env id args
  perform store env (Command.retire id args) = Lifecycle.retire store env id args

  -- The store after a sequence of calls; a call that raises leaves what it leaves.
  unfoldable pub run : Store J → List (Env × Command J) → Store J
  run store [] = store
  run store ((env, c) ∷ cs) = run (perform store env c).0 cs
