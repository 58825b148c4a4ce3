-- ===== src/MakeMkv/Rip.antt =====
-- internal/makemkv/makemkv.go: `Runner.RipTitle` from the start of the command on: its lines and the
-- ticks of the watchdog, in the order in which they are handled, and the file that is left. The end
-- of the process, the staging directory, the move and the file's size are arguments.
use hellbox.Base.{
  ℕ, Bool, true, false, not, ◌&&◌, List, [], ◌∷◌, ◌++◌, Option, none, some, ◌==◌, if◌then◌else◌,
  Text, codes, text_eq, ℤ, pos, Unicode, fold_text, ◌⊎◌, inl, inr,
}
use hellbox.MakeMkv.Lines.{
  Line, parse_line, field, int_field, Message, parse_message, Progress, fraction,
}
use hellbox.MakeMkv.Messages.{summarise}
use hellbox.MakeMkv.Stall.{StallTimer, new_stall_timer, observe, expired}

pub record RipProgress : Type 0 where
  pub title_index : ℕ
  pub operation : Text
  pub fraction_done : ℕ × ℕ

-- What `RipTitle` keeps while the command runs: the result's messages and raw output, the progress,
-- the timer, what it reported, and whether the watchdog still runs.
pub record Ripping : Type 0 where
  pub messages : List Message
  pub raw : Text
  pub progress : Progress
  pub stall : StallTimer
  pub reports : List RipProgress
  pub watched : Bool

abbrev pub started_at : ℕ → ℕ → Ripping
started_at timeout now = record {
  messages = [];
  raw = [];
  progress = record {
    current = [];
    total = [];
    value = pos 0;
    total_val = pos 0;
    max = pos 0;
    has_values = false;
  };
  stall = new_stall_timer timeout now;
  reports = [];
  watched = true;
}

abbrev pub operation_of : Progress → Text
operation_of p = elim (p.current) [ [] ↦ p.total | c ∷ s ↦ c ∷ s ]

unfoldable pub readings : Unicode → Line → ℤ × ℤ × ℤ
unfolding int_field
readings u l = (int_field u l 0, int_field u l 1, int_field u l 2)

-- The case of `PRGV`
unfoldable pub with_values : ℕ → Ripping → ℤ × ℤ × ℤ → ℕ → Ripping
unfolding fraction observe
with_values title r (v, t, m) now =
    let p = record r.progress { value = v; total_val = t; max = m; has_values = true } in
    record r {
      progress = p;
      stall = observe r.stall (v, t, m) now;
      reports =
          r.reports
          ++ record { title_index = title; operation = operation_of p; fraction_done = fraction p }
            ∷ [];
    }

-- The switch on the line's kind
unfoldable pub heed : Unicode → ℕ → Ripping → ℕ → Option Line → Ripping
unfolding parse_message with_values readings text_eq
heed u title r now none = r
heed u title r now (some l) =
    if text_eq l.kind (codes "MSG")
    then record r { messages = r.messages ++ parse_message u l ∷ [] }
    else if text_eq l.kind (codes "PRGC")
    then record r { progress = record r.progress { current = field l 2 } }
    else if text_eq l.kind (codes "PRGT")
    then record r { progress = record r.progress { total = field l 2 } }
    else if text_eq l.kind (codes "PRGV")
    then with_values title r (readings u l) now
    else r

-- The function that `run` calls for each line
unfoldable pub on_line : Unicode → ℕ → Ripping → Text → ℕ → Ripping
unfolding heed parse_line
on_line u title r line now =
    heed u title (record r { raw = r.raw ++ line ++ 10 ∷ [] }) now (parse_line line)

-- A tick of the watchdog, which ends with the first stall it sees
abbrev pub stopped : Ripping → Bool × StallTimer → Ripping
stopped r (true, s) = record r { stall = s; watched = false }
stopped r (false, s) = record r { stall = s }

unfoldable pub on_tick : Ripping → ℕ → Ripping
unfolding expired
on_tick r now = if r.watched then stopped r (expired r.stall now) else r

pub data Happening : Type 0 where
  line_at : Text → ℕ → Happening
  tick_at : ℕ → Happening

abbrev pub handle : Unicode → ℕ → Ripping → Happening → Ripping
handle u title r (line_at line now) = on_line u title r line now
handle u title r (tick_at now) = on_tick r now

unfoldable pub handle_all : Unicode → ℕ → Ripping → List Happening → Ripping
handle_all u title r [] = r
handle_all u title r (h ∷ hs) = handle_all u title (handle u title r h) hs

pub record Entry : Type 0 where
  pub name : Text
  pub is_dir : Bool

-- `filepath.Ext`, of a name without a slash
unfoldable pub ext : Text → Text
ext [] = []
ext (c ∷ s) = elim (ext s) [ [] ↦ if c == b'.' then c ∷ s else [] | d ∷ e ↦ d ∷ e ]

unfoldable pub mkv_names : Unicode → List Entry → List Text
unfolding ext text_eq
mkv_names u [] = []
mkv_names u (e ∷ es) =
    let rest = mkv_names u es in
    if not e.is_dir && text_eq (fold_text u (ext e.name)) (fold_text u (codes ".mkv"))
    then e.name ∷ rest
    else rest

-- The errors of `RipTitle`, with the summary of the messages
pub data RipError : Type 0 where
  no_progress : ℕ → Text → RipError
  command_failed : Text → Text → RipError
  unread_staging : Text → Text → RipError
  no_output_file : Text → RipError
  many_output_files : Text → RipError
  unmoved no_stat : Text → RipError

-- What the program finds when the command has ended: its error, the staging directory, and for each
-- name in it how the move and the reading of the size end.
pub record Ending : Type 0 where
  pub run_error : Option Text
  pub staging : Text ⊎ List Entry
  pub rename_error : Text → Option Text
  pub size : Text ⊎ ℕ

-- `singleMKV`
unfoldable pub single_mkv : Unicode → Text → Text ⊎ List Entry → RipError ⊎ Text
unfolding mkv_names
single_mkv u summary (inl e) = inl (unread_staging e summary)
single_mkv u summary (inr entries) = elim (mkv_names u entries) [
  | [] ↦ inl (no_output_file summary)
  | n ∷ [] ↦ inr n
  | n ∷ o ∷ rest ↦ inl (many_output_files summary)
]

abbrev pub sized : Text ⊎ ℕ → RipError ⊎ ℕ
sized (inl e) = inl (no_stat e)
sized (inr n) = inr n

abbrev pub moved : Ending → RipError ⊎ Text → RipError ⊎ ℕ
moved end (inl e) = inl e
moved end (inr name) = elim (end.rename_error name) [
  | some e ↦ inl (unmoved e)
  | none ↦ sized end.size
]

-- What follows the command in `RipTitle`; a result is the size of the title's file.
unfoldable pub conclude : Unicode → Ripping → Ending → RipError ⊎ ℕ
unfolding summarise single_mkv
conclude u r end =
    let summary = summarise u r.messages in
    if r.stall.fired then inl (no_progress r.stall.timeout summary) else elim (end.run_error) [
      | some e ↦ inl (command_failed e summary)
      | none ↦ moved end (single_mkv u summary end.staging)
    ]

-- `RipTitle` on what happens while the command runs
unfoldable pub rip_title : Unicode → ℕ → ℕ → ℕ → List Happening → Ending → RipError ⊎ ℕ
unfolding handle_all conclude
rip_title u title timeout now hs end =
    conclude u (handle_all u title (started_at timeout now) hs) end
