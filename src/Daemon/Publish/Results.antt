-- ===== src/Daemon/Publish/Results.antt =====
-- crates/aursmithd/src/publish.rs: the daemon collects the signer's results.
use aursmith.Base.{
  ℕ, ◌+◌, ◌*◌, String, ◌+++◌, List, [], ◌∷◌, Option, none, some, ◌==◌, string_ord, keep, ltb,
  if◌then◌else◌,
}
use aursmith.Core.Protocol.{SignerResult, SignerState}
use aursmith.Core.Protocol
use aursmith.Daemon.State.{AppState, Bytes, Publication, PublicationState, published, failed}
use aursmith.Daemon.Table.{update_where}
use aursmith.Daemon.Publish.Plan.{Codec, is_pending, put_inbox}

-- in seconds
abbrev pub signer_timeout : ℕ
signer_timeout = 60 * 60

abbrev pub failed_result : ℕ → String → String → SignerResult
failed_result now sha256 error = record {
  plan_sha256 = sha256;
  state = Protocol.SignerState.failed;
  error = some error;
  manifest_sha256 = none;
  keyring_fingerprint = none;
  finished_at = now;
}

abbrev pub outbox_name : String → String
outbox_name sha256 = sha256 +++ ".json"

abbrev pub decoded_result : ℕ → String → Option SignerResult → SignerResult
decoded_result now sha256 none = failed_result now sha256 "签名器结果格式无效"
decoded_result now sha256 (some result) =
    if result.plan_sha256 == sha256 then result else failed_result now sha256 "签名器结果格式无效"

-- the result for a pending row, or `None` while the signer has time
abbrev pub result_for : Codec → ℕ → Publication → Option Bytes → Option SignerResult
result_for codec now row (some bytes) =
    some (decoded_result now row.plan_sha256 (codec.read_result bytes))
result_for codec now row none =
    if ltb (row.created_at + signer_timeout) now
    then some (failed_result now row.plan_sha256 "签名器超时未返回结果")
    else none

abbrev pub next_state : SignerState → PublicationState
next_state Protocol.SignerState.published = published
next_state Protocol.SignerState.failed = failed

abbrev pub result_row : SignerResult → Publication → Publication
result_row result p = record p {
  state = next_state result.state;
  error = result.error;
  manifest_sha256 = result.manifest_sha256;
  keyring_fingerprint = result.keyring_fingerprint;
  finished_at = some result.finished_at;
}

abbrev pub remove_outbox : String → AppState → AppState
remove_outbox name s = record s {
  exchange = record {
    inbox = s.exchange.inbox;
    outbox = λ other. if other == name then none else s.exchange.outbox other;
  };
}

abbrev pub store_result : Publication → Option SignerResult → AppState → AppState
store_result row none s = s
store_result row (some result) s =
    let updated = record s {
      publications = update_where (λ p. p.id == row.id) (result_row result) s.publications;
    } in
    put_inbox row.plan_sha256 none (remove_outbox (outbox_name row.plan_sha256) updated)

abbrev pub collect_row : Codec → ℕ → Publication → AppState → AppState
collect_row codec now row s =
    store_result row (result_for codec now row (s.exchange.outbox (outbox_name row.plan_sha256))) s

-- the loop over the rows that were pending at its start
unfoldable pub collect_rows : Codec → ℕ → List Publication → AppState → AppState
collect_rows codec now [] s = s
collect_rows codec now (row ∷ rows) s = collect_rows codec now rows (collect_row codec now row s)

unfoldable pub collect_signer_results : Codec → ℕ → AppState → AppState
unfolding collect_rows
collect_signer_results codec now s =
    collect_rows codec now (keep (λ p. is_pending p.state) s.publications) s
