-- ===== src/FileTransfer/Handler/Sound.antt =====
-- transfer_handler.go: the invariant of every stored transfer, and the steps that the handlers are
-- made of.
pub mod Messages
pub mod Actions
pub mod Chunks
use onli_desk_full.Common.{
  ◌≡◌, refl, inl, inr, ℤ, pos, ltb_ℤ, String, ◌==◌, Bool, true, false, ◌&&◌, ◌||◌, not, Option,
  none, some, List, [], ◌∷◌, arith, eq_iff, eq_refl, wrap64, ◌+ℤ◌, if◌then◌else◌, is_some, some_inj,
  Option-cases, Bool-cases, length,
}
use onli_desk_full.Common.Map.{lookup, lookup-insert, lookup-delete}
use onli_desk_full.FileTransfer.Chunks.{Bytes, FileChunk, put, int_beq}
use onli_desk_full.FileTransfer.Handler.{
  approved, in_progress, rejected, failed, Conn, FileSystem, FileTransferRequest,
  FileTransferResponse, TransferSession, TransferHandler, AuditEntry, answered, Message, violation,
  requested, progressed, completed, transfer_completed, progress, transfer_error, request_received,
  response_notice, call_audit, send, send_to, send_both, save, opened, is_type_allowed,
  handle_new_transfer_request, approve_transfer, handle_transfer_response, notify_portal,
}
use onli_desk_full.FileTransfer.Handler.Receive.{
  takes_chunks, cleanup_transfer, close_file, complete_transfer, report_progress, receive_chunk,
  write_file, verify_checksum,
}
use onli_desk_full.FileTransfer.Handler.Control.{is_paused}

-- An entry that says that the transfer `id` was approved.
abbrev pub is_approval : String → AuditEntry → Bool
is_approval id (answered k session yes_or_no) = (k == id) && yes_or_no
is_approval id _ = false

abbrev pub was_approved : String → List AuditEntry → Bool
was_approved id [] = false
was_approved id (e ∷ es) = is_approval id e || was_approved id es

module _ (os : FileSystem) where
  abbrev pub is_open : TransferSession os → Bool
  is_open s = takes_chunks os s.status || is_paused s.status

  abbrev pub has_started : TransferSession os → Bool
  has_started s = is_open s || not (elim s.received_chunks [ [] ↦ true | c ∷ cs ↦ false ])

  pub record IsSound (max : ℤ) (entries : List AuditEntry) (k : String) (s : TransferSession os)
      : Type 0 where
    pub keyed : s.id ≡ k
    pub fits : ltb_ℤ max s.request.file_size ≡ false
    pub granted : has_started s ≡ true → was_approved k entries ≡ true
    pub has_file : is_open s ≡ true → is_some s.file ≡ true

  pub record EverySound (h : TransferHandler os) : Type 0 where
    pub every :
        (k : String) (s : TransferSession os)
        → lookup k h.active_sessions ≡ some s
        → IsSound h.max_file_size h.audit_calls k s

  pub either :
      (b : Bool) {h g : TransferHandler os}
      → (b ≡ true → EverySound h)
      → (b ≡ false → EverySound g)
      → EverySound (if b then h else g)
  either true x y = x refl
  either false x y = y refl

  pub send-EverySound :
      (c : Conn) (m : Message) (h : TransferHandler os) → EverySound h → EverySound (send os c m h)
  send-EverySound c m h d = record { every = d.every }

  pub send_to-EverySound :
      (c : Option Conn) (m : Message) (h : TransferHandler os)
      → EverySound h
      → EverySound (send_to os c m h)
  send_to-EverySound none m h d = d
  send_to-EverySound (some c) m h d = record { every = d.every }

  pub send_both-EverySound :
      (s : TransferSession os) (m : Message) (h : TransferHandler os)
      → EverySound h
      → EverySound (send_both os s m h)
  send_both-EverySound s m h d =
      send_to-EverySound s.portal_conn m (send_to os s.client_conn m h)
        (send_to-EverySound s.client_conn m h d)

  pub files-EverySound :
      (fs : os.Files) (h : TransferHandler os) → EverySound h → EverySound (record h { files = fs })
  files-EverySound fs h d = record { every = d.every }

  pub call_audit-EverySound :
      (e : AuditEntry) (h : TransferHandler os) → EverySound h → EverySound (call_audit os e h)
  call_audit-EverySound e h d = record {
    every = λ k s found.
        let i = d.every k s found in
        record {
          keyed = i.keyed;
          fits = i.fits;
          has_file = i.has_file;
          granted = λ started. ground (arith, i.granted started);
        };
  }

  pub save-EverySound :
      (s : TransferSession os) (h : TransferHandler os)
      → EverySound h
      → IsSound h.max_file_size h.audit_calls s.id s
      → EverySound (save os s h)
  save-EverySound s h d i = record {
    every = λ k t found. elim (Bool-cases (s.id == k)) [
      | inl same ↦
          let e : s ≡ t =
            some_inj (ground (arith, lookup-insert s.id k s h.active_sessions, same)) in
          rw (← (eq_iff s.id k).0 same, ← e) i
      | inr other ↦ d.every k t (ground (arith, lookup-insert s.id k s h.active_sessions, other))
    ];
  }

  pub cleanup-EverySound :
      (s : TransferSession os) (h : TransferHandler os)
      → EverySound h
      → EverySound (cleanup_transfer os s h)
  cleanup-EverySound s h d = record {
    every = λ k t found. d.every k t (ground (arith, lookup-delete s.id k h.active_sessions));
  }

  pub close-EverySound :
      (s : TransferSession os) (h : TransferHandler os)
      → EverySound h
      → EverySound (close_file os s h)
  close-EverySound s h d = elim (Option-cases s.file) [
    | inl shut ↦ rw shut d
    | inr (f, held) ↦ rw held (files-EverySound (os.close f h.files) h d)
  ]

  pub report-EverySound :
      (s : TransferSession os) (h : TransferHandler os)
      → EverySound h
      → EverySound (report_progress os s h)
  report-EverySound s h d =
      either (int_beq s.request.file_size (pos 0)) (λ nothing. d)
        (λ some_size.
          send_both-EverySound s (progress s.id s.bytes_transferred s.request.file_size) h d)

  pub rekey :
      {max : ℤ} {entries : List AuditEntry} {k : String} {s : TransferSession os}
      → IsSound max entries k s
      → IsSound max entries s.id s
  rekey i = record {
    keyed = refl;
    fits = i.fits;
    granted = λ started. rw i.keyed (i.granted started);
    has_file = i.has_file;
  }
