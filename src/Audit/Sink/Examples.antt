-- ===== src/Audit/Sink/Examples.antt =====
-- A log at work, and the theorems at concrete inputs.
use magiclaw.Common.{◌≡◌, refl, inr, true, false, none, some, List, [], ◌∷◌, ◌++◌}
use magiclaw.Common.Int.{pos}
use magiclaw.Common.Result.{ok, err}
use magiclaw.Common.Text.{Text, text}
use magiclaw.Audit.Chain.{head_mismatch, compute_entry_hash}
use magiclaw.Audit.Chain.Examples.{checksum}
use magiclaw.Audit.Sink.{
  AuditRow, chain_head, new_row, read_head, record_entry, verify_chain, write_audit,
}
use magiclaw.Audit.Sink.Linked.{Entry, add}
use magiclaw.Audit.Sink.Growth.{
  log_of, verify_chain-log_of, verify_chain-unread, verify_chain-write_audit,
}

abbrev entry : Entry
entry = record {
  route_key = some (text "wechat/conv1");
  action = text "send";
  result = text "sent";
  id = pos 1;
  now = pos 100;
  head_read = true;
  written = true;
}

abbrev history : List Entry
history =
    entry ∷ (record entry { written = false }) ∷ (record entry { id = pos 2; now = pos 101 }) ∷ []

verify_chain-log_of_example :
    verify_chain checksum (text "null") (log_of checksum history [])
    ≡ ok (chain_head (log_of checksum history []))
verify_chain-log_of_example =
    verify_chain-log_of checksum (text "null") history (inr refl, (inr refl, (inr refl, tt)))

abbrev first_hash : Text
first_hash =
    compute_entry_hash checksum [] (text "wechat/conv1") (text "send") (text "sent") (pos 100)

first_head : chain_head (log_of checksum (entry ∷ []) []) ≡ some first_hash
unfolding chain_head log_of add record_entry new_row read_head
first_head = refl

abbrev unread : Entry
unread = record entry { id = pos 2; now = pos 101; head_read = false }

verify_chain-unread_example :
    verify_chain checksum
      (text "null")
      (log_of checksum history (add checksum unread (log_of checksum (entry ∷ []) [])))
    ≡ err (head_mismatch unread.id (some first_hash) none)
verify_chain-unread_example =
    verify_chain-unread checksum (text "null") (entry ∷ []) history unread first_hash (inr refl, tt)
      first_head refl refl

abbrev old_row : AuditRow
old_row = record {
  id = pos 1;
  route_key = none;
  action = text "send";
  result = text "sent";
  created_at = pos 9;
  prev_hash = none;
  entry_hash = none;
}

verify_chain-write_audit_example :
    verify_chain checksum (text "null") (
      write_audit none
        (text "project_push")
        (text "queued")
        (pos 2)
        (pos 9)
        (log_of checksum history [])
      ++ old_row ∷ [])
    ≡ err (head_mismatch (pos 0) none (some (text "null")))
verify_chain-write_audit_example =
    verify_chain-write_audit checksum (text "null") none (text "project_push") (text "queued")
      (pos 2) (pos 9) (log_of checksum history []) (old_row ∷ [])
