-- ===== src/Worker/World.antt =====
-- internal/daemon/worker.go: the worker of a drive, and what it meets while it handles a disc: the
-- drive, the disc programs, the file system, the refusals of SQLite, the clock, and the moments at
-- which its context has been cancelled. These are answers of code that is not modelled here.
use hellbox.Base.{◌≡◌, refl, ◌⊎◌, inl, inr, ℕ, Bool, List, ◌∷◌, Option, none, some, Text}
use hellbox.Catalog.{Problem, Disc, Title, Catalog}
use hellbox.Drive.Region.{Region, Protection}
use hellbox.Drive.Profile.{DiscKind}
use hellbox.Worker.Status.{Status, DriveState, set_state}

pub data Result {ℓ} (A : Type ℓ) : Type ℓ where
  ok : A → Result A
  err : Problem → Result A

-- The part of `config.Config` that the worker reads.
pub record Config : Type 0 where
  pub max_rip_attempts : ℕ
  pub scan_attempts : ℕ
  pub eject_on_success : Bool
  pub eject_on_failure : Bool
  pub native_dvd : Bool
  pub decrypt_fallback : Bool
  pub min_output_bytes : ℕ

-- What a worker does to the world outside.
pub data Effect : Type 0 where
  tray_opened : Effect
  published : Text → List Title → Text → Effect
  handed_on : ℕ → Text → List Title → Effect
  copy_discarded : Effect
  described : List Title → Effect

pub record Worker : Type 0 where
  pub status : Status
  pub catalog : Catalog
  pub holds_slot : Bool
  pub cancellable : Bool
  pub effects : List Effect

pub record ScanResult : Type 0 where
  pub disc : Disc
  pub raw : Text

-- One attempt to scan: its result, whether the context is cancelled after it, what the drive says
-- when it is asked whether the disc has left, and whether the context ends while it waits.
pub record ScanTry : Type 0 where
  pub result : Result ScanResult
  pub is_stopped : Bool
  pub left : Result Bool
  pub is_stopped_waiting : Bool

-- A file that a rip has left: what `os.Stat`, `os.Open` and the read of its first bytes say.
pub record Output : Type 0 where
  pub stat : Result ℕ
  pub open_error : Option Problem
  pub header : Result (List ℕ)

pub record RipResult : Type 0 where
  pub output : Output
  pub size_bytes : ℕ

-- The rip of one title: its result, whether the context is cancelled after it, and what the check
-- of the measured duration says.
pub record TitleRip : Type 0 where
  pub result : Result RipResult
  pub is_stopped : Bool
  pub duration_problem : Option Problem
  pub estimate : Option ℕ

pub data Mkdir : Type 0 where
  made exists : Mkdir
  refused : Problem → Mkdir

-- The statements whose refusal by SQLite the worker can see or suffers from.
pub data Call : Type 0 where
  find_call save_call resave_call attempts_call create_call rip_dir_call : Call
  complete_call failed_call cancelled_call ripping_call : Call
  progress_call mark_call abandoned_call : ℕ → Call

pub record World : Type 0 where
  pub config : Config
  pub drive_id : ℕ
  pub has_slot : Bool
  pub is_slot_free : Bool
  pub is_slot_given : Bool
  pub disc_kind : Result DiscKind
  pub blu_ray : Worker → Worker
  pub scan : ℕ → ScanTry
  pub is_stopped_after_scan : Bool
  pub sql_error : Call → Option Problem
  pub clock : ℕ
  pub base_dir : Disc → Text
  pub directory : ℕ → Text → Text
  pub mkdir : Text → Mkdir
  pub is_empty_dir : Text → Bool
  pub log_error : Option Problem
  pub region : Result Region
  pub protection : Result Protection
  pub decrypter_error : Option Problem
  pub has_copy : Bool
  pub mirror_error : Option Problem
  pub is_stopped_in_mirror : Bool
  pub rescan : Result ScanResult
  pub disc_json_error : Option Problem
  pub info_error : Option Problem
  pub title : ℕ → Title → TitleRip
  pub eject_error : Option Problem

abbrev pub emit : Worker → Effect → Worker
emit w e = record w { effects = e ∷ w.effects }

unfoldable pub to_state : World → Worker → DriveState → Worker
to_state env w s = record w { status = set_state w.status s env.clock }

-- A statement changes the tables unless SQLite refuses it.
abbrev pub after_sql : Option Problem → Worker → Catalog → Worker
after_sql none w after = record w { catalog = after }
after_sql (some e) w after = w

unfoldable pub run_sql : World → Worker → Call → Catalog → Worker
run_sql env w call after = after_sql (env.sql_error call) w after

-- A step that may fail, and what follows it if it does not.
abbrev pub and_then {ℓ κ} :
    {A : Type ℓ} {B : Type κ}
    → Result A × Worker
    → (A → Worker → Result B × Worker)
    → Result B × Worker
and_then (err e, w) f = (err e, w)
and_then (ok a, w) f = f a w

pub Result-cases {ℓ} :
    {A : Type ℓ} (r : Result A) → ((e : Problem) × (r ≡ err e)) ⊎ ((a : A) × (r ≡ ok a))
Result-cases (err e) = inl (e, refl)
Result-cases (ok a) = inr (a, refl)
