-- ===== src/Drive/Examples.antt =====
-- Runs of the helper's parts and the theorems on them at small inputs.
use desktop_folder_locker.Common.{
  ℕ, ◌+◌, ◌%◌, ◌≡◌, ◌↔◌, refl, false, Option, some, List, [], ◌∷◌, ◌++◌, true, false, arith, none,
  to_le_bytes, from_le_bytes,
}
use desktop_folder_locker.Common.Text.{Text, repeat}
use desktop_folder_locker.Vault2.Crypto.{Bytes}
use desktop_folder_locker.Drive.Protocol.{done, failure}
use desktop_folder_locker.Drive.Header.{
  parse, layout, format_version, header_size, cipher_xchacha20_poly1305, parse-layout,
}
use desktop_folder_locker.Drive.Letters.{free, find_first, free_drive_letter}
use desktop_folder_locker.Vault2.Keys.{derive}
use desktop_folder_locker.Drive.Keys.{trim_end, trim, derive_decoded, keys}
use desktop_folder_locker.Drive.Jobs.{
  Jobs, no_jobs, get, insert, remove, start, finish, cancel, Reporter, report, send, new_reporter,
}
use desktop_folder_locker.Drive.Flags.{view, view_of, IsValid}
use desktop_folder_locker.Drive.Helper.{Helper, started, Step, Reaches, count, received-count}
use desktop_folder_locker.Drive.Cancelling.{Action, run, run_view, run-view}
use desktop_folder_locker.Drive.Stopping.{cancel-report}
use desktop_folder_locker.Drive.Early.{early_cancel}

abbrev vault_id : Bytes
vault_id = 1 ∷ 2 ∷ 3 ∷ 4 ∷ 5 ∷ 6 ∷ 7 ∷ 8 ∷ 9 ∷ 10 ∷ 11 ∷ 12 ∷ 13 ∷ 14 ∷ 15 ∷ 16 ∷ []

parse-drive :
    parse (layout 2 1 4096 vault_id 65536 1 (repeat 27 0))
    ≡ done (record { vault_id = vault_id; block_size = 65536 })
unfolding parse to_le_bytes from_le_bytes repeat
parse-drive = refl

parse-layout_example :
    (parse (layout 2 3 4096 vault_id 65536 1 [])
      ≡ done (record { vault_id = vault_id; block_size = 65536 }))
    ↔ ((2 ≡ format_version) × (3 % 2 ≡ 1) × (4096 ≡ header_size) × (1 ≡ cipher_xchacha20_poly1305))
parse-layout_example =
    parse-layout 2 3 4096 vault_id 65536 1 [] (omega arith) (omega arith) (omega arith) refl
      (omega arith)

-- Request 7 is started twice, the second time while the first runs.
abbrev actions : List Action
actions =
    Action.starts 7
    ∷ Action.starts 8
    ∷ Action.cancels 7
    ∷ Action.starts 9
    ∷ Action.cancels 5
    ∷ Action.finishes 8
    ∷ []

run-actions : view (run actions no_jobs) ≡ (7, true) ∷ (9, false) ∷ []
unfolding run start finish cancel get insert remove view_of
run-actions = refl

run-view_example :
    IsValid (run actions no_jobs) × (view (run actions no_jobs) ≡ run_view actions [])
run-view_example = run-view actions

abbrev two : Jobs
two = record { running = (7, 0) ∷ (8, 1) ∷ []; flags = λ _. false; next = 2 }

two-IsValid : IsValid two
two-IsValid = (omega arith, ((λ q. absurd (omega (arith, q))), tt), (omega arith, tt, tt))

abbrev reporter : ℕ → Reporter
reporter flag = record { total = 100; cancel = flag; last = none; sent = 0 ∷ [] }

get_seven : get two.running 7 ≡ some 0
unfolding get
get_seven = refl

get_eight : get two.running 8 ≡ some 1
unfolding get
get_eight = refl

-- Request 7 is started again, and then all are cancelled that run, but for 8, which finished.
abbrev later : List Action
later = Action.starts 7 ∷ Action.finishes 8 ∷ Action.cancels_all ∷ []

cancel-report_example :
    ((cancel 7 two).0 ≡ true)
    × (report (run later (cancel 7 two).1) 1000 50 (reporter 0) ≡ (false, reporter 0))
    × (report (run later (cancel 7 two).1) 1000 50 (reporter 1)
        ≡ report (run later two) 1000 50 (reporter 1))
cancel-report_example =
    cancel-report two 7 0 8 1 later 1000 50 (reporter 0) (reporter 1) two-IsValid get_seven
      get_eight (λ q. absurd (omega (arith, q))) refl refl

-- Request 2 is to cancel request 1, whose thread has not begun.
abbrev after_spawn : Helper
after_spawn = record started { waiting = 1 ∷ []; received = 1 ∷ [] }

abbrev after_cancel : Helper
after_cancel = record after_spawn {
  jobs = (cancel 1 no_jobs).1;
  replies = 2 ∷ [];
  received = 2 ∷ 1 ∷ [];
}

abbrev after_begin : Helper
after_begin = record after_cancel {
  jobs = (start 1 (cancel 1 no_jobs).1).1;
  waiting = [];
  working = 1 ∷ [];
}

begun : Reaches after_begin
begun =
    Reaches.then_step after_cancel after_begin
      (Reaches.then_step after_spawn after_cancel
        (Reaches.then_step started after_spawn Reaches.at_start (Step.spawns 1)) (Step.cancels 2 1))
      (Step.begins [] [] 1 refl)

received-count_example :
    count 1 after_begin.received
    ≡ count 1 after_begin.waiting + (count 1 after_begin.working + count 1 after_begin.replies)
received-count_example = received-count after_begin begun 1

get-none : get no_jobs.running 7 ≡ none
unfolding get
get-none = refl

start_seven : (reporter 0).cancel ≡ (start 7 no_jobs).0
unfolding start
start_seven = refl

-- C is used, so the first letter of the list is taken; D is not.
letter_of_used : free_drive_letter (some b'c') 4 ≡ some b'V'
unfolding free_drive_letter free find_first
letter_of_used = refl

letter_of_unused : free_drive_letter (some b'd') 4 ≡ some b'D'
unfolding free_drive_letter free find_first
letter_of_unused = refl

abbrev decode_same : Text → Option Bytes
decode_same t = some t

abbrev expand_purpose : Bytes → Bytes → Bytes → ℕ → Bytes
expand_purpose salt key info n = salt ++ key ++ info

key_in_spaces :
    keys expand_purpose decode_same
      (record { vault_id = vault_id; block_size = 64 })
      (32 ∷ 10 ∷ repeat 32 7 ++ 32 ∷ [])
    ≡ done (derive expand_purpose (repeat 32 7) vault_id)
unfolding keys derive_decoded trim trim_end repeat
key_in_spaces = refl

short_key :
    keys expand_purpose decode_same (record { vault_id = vault_id; block_size = 64 }) (repeat 31 7)
    ≡ failure "badRequest" "The key must be 32 bytes"
unfolding keys derive_decoded trim trim_end repeat
short_key = refl

sent_soon : (report no_jobs 100 50 (new_reporter 0 90 0)).1.sent ≡ 0 ∷ []
unfolding report send new_reporter
sent_soon = refl

sent_at_end : (report no_jobs 100 90 (new_reporter 0 90 0)).1.sent ≡ 0 ∷ 90 ∷ []
unfolding report send new_reporter
sent_at_end = refl

spawned : Reaches after_spawn
spawned = Reaches.then_step started after_spawn Reaches.at_start (Step.spawns 1)

early_cancel_example :
    ((cancel 1 no_jobs).0 ≡ false)
    × (h1 : Helper) × (h2 : Helper) × Step after_spawn h1
    × (h1.jobs ≡ (cancel 1 no_jobs).1)
    × (h1.replies ≡ 2 ∷ [])
    × Step h1 h2
    × (h2.working ≡ 1 ∷ [])
    × (flag : ℕ) × (get h2.jobs.running 1 ≡ some flag)
    × (h2.jobs.flags flag ≡ false)
early_cancel_example = early_cancel after_spawn 2 1 [] [] spawned refl refl
