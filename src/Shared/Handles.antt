-- ===== src/Shared/Handles.antt =====
-- src/shared.rs: making a shared storage, and the storages of its queues.
use apalis_surrealdb.Prelude.{ℕ, Bool, Option, none, some, []}
use apalis_surrealdb.Session.{World}
use apalis_surrealdb.Fetch.{Config}
use apalis_surrealdb.Backend.{SurrealStorage, shared_storage}
use apalis_surrealdb.Shared.{SharedSurrealError}
use apalis_surrealdb.Shared.Mpsc.{Mpsc}
use apalis_surrealdb.Shared.Driver.{idle, System, register}

pub data MakeShared : Type 0 where
  made : SurrealStorage ℕ → MakeShared
  refused : SharedSurrealError → MakeShared

module _ (m : Mpsc) where
  -- The registry is empty, and the driver's future is not yet polled.
  unfoldable pub new_with_codec : World → System m.Chan
  new_with_codec w = record { registry = []; drive = idle; world = w }

  unfoldable pub new : World → System m.Chan
  unfolding new_with_codec
  new w = new_with_codec w

  -- A refusal, or the storage; `ulid` is what `new_instance` gives.
  abbrev pub storage_of : (ulid : ℕ) → Config → Option SharedSurrealError → MakeShared
  storage_of ulid config none = made (shared_storage ulid config config.queue)
  storage_of ulid config (some e) = refused e

  unfoldable pub make_shared_with_config :
      (contended : Bool) → (ulid : ℕ) → Config → System m.Chan → MakeShared × System m.Chan
  unfolding shared_storage register
  make_shared_with_config contended ulid config s =
      let (why, s') = register m contended config s in (storage_of ulid config why, s')

  -- `Config::new` is a parameter.
  unfoldable pub make_shared :
      (config_new : ℕ → Config)
      → (contended : Bool) → (ulid : ℕ) → (type_name : ℕ) → System m.Chan
      → MakeShared × System m.Chan
  unfolding make_shared_with_config
  make_shared config_new contended ulid type_name s =
      make_shared_with_config contended ulid (config_new type_name) s
