-- ===== src/Examples/Transfers.antt =====
-- A manager of transfers with a download that waits for its answer, over the files of
-- Examples/Handlers.antt, none of which exists.
use onli_desk_full.FileTransfer.Manager.Ticker.{
  Ticking, Reach, here, later, selects, waiting_on, new_ticking, update_ticker,
  updated_never_cleans,
}
use onli_desk_full.Common.{◌≡◌, refl, ℤ, pos, Bool, true, false, none, some, []}
use onli_desk_full.Common.Map.{IsMap, lookup, insert}
use onli_desk_full.Common.Text.{is_listed}
use onli_desk_full.FileTransfer.Handler.{FileTransferRequest, TransferSession, approved}
use onli_desk_full.FileTransfer.Manager.{
  TransferManager, default_transfer_config, not_pending, stream_failed, stream_not_found, created,
  new_transfer_manager, create_transfer_session, new_file_stream, approve_transfer, pause_transfer,
  resume_transfer, perform_cleanup,
}
use onli_desk_full.FileTransfer.Manager.Approval.{failed_approval_sticks}
use onli_desk_full.Examples.Handlers.{disk, path_of, request}

abbrev download : FileTransferRequest
download = record request { kind = "download" }

abbrev new : TransferManager disk
new = new_transfer_manager disk none []

abbrev waiting : TransferManager disk
waiting = (create_transfer_session disk "u" (pos 0) download (some 2) (some 1) new).0

abbrev transfer : TransferSession disk
transfer = created disk (pos 0) download (some 2) (some 1)

waiting_transfer : lookup "t" waiting.sessions ≡ some transfer
unfolding create_transfer_session new_transfer_manager default_transfer_config lookup insert
    is_listed
waiting_transfer = refl

waiting_streams : lookup "t" waiting.file_streams ≡ none
unfolding create_transfer_session new_transfer_manager default_transfer_config lookup insert
    is_listed
waiting_streams = refl

waiting_IsMap : IsMap waiting.sessions
unfolding create_transfer_session new_transfer_manager default_transfer_config lookup insert
    is_listed
waiting_IsMap = (refl, tt)

nothing_to_open :
    new_file_stream disk "t"
      (path_of waiting.config.temp_dir "t" "notes.txt")
      false
      (some 2)
      waiting.files
    ≡ none
unfolding new_file_stream create_transfer_session new_transfer_manager default_transfer_config
    lookup insert is_listed
nothing_to_open = refl

failed_approval_sticks_example :
    let (k, e) = approve_transfer disk path_of "t" true waiting in
    let t : TransferSession disk = record transfer {
      status = approved;
      temp_path = path_of waiting.config.temp_dir "t" "notes.txt";
    } in
    (e ≡ some stream_failed)
    × (lookup "t" k.sessions ≡ some t)
    × ((again : Bool) → approve_transfer disk path_of "t" again k ≡ (k, some not_pending))
    × (pause_transfer disk "t" k ≡ (k, some stream_not_found))
    × (resume_transfer disk "t" k ≡ (k, some stream_not_found))
    × ((now : ℤ) → lookup "t" (perform_cleanup disk now k).sessions ≡ some t)
failed_approval_sticks_example =
    failed_approval_sticks disk path_of "t" waiting transfer waiting_IsMap waiting_transfer refl
      waiting_streams nothing_to_open

-- The goroutine of the cleanup at its first wait.
abbrev first_wait : Ticking
first_wait = record new_ticking { routine = waiting_on 0 }

first_wait_reached : Reach new_ticking first_wait
unfolding new_ticking
first_wait_reached = later here (selects refl)

updated_never_cleans_example :
    ((u : Ticking) × Reach first_wait u × (u.cleanups ≡ 1))
    × ((u : Ticking) → Reach (update_ticker true first_wait) u → u.cleanups ≡ 0)
unfolding new_ticking
updated_never_cleans_example = updated_never_cleans first_wait refl refl refl
