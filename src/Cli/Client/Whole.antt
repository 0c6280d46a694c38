-- ===== src/Cli/Client/Whole.antt =====
-- A download that succeeds has written the whole of its last stream.
use redcloud_files.Base.{
  ℕ, suc, ◌≤◌, ◌==◌, String, true, Option, none, some, List, ◌≡◌, refl, ap, ◌∙◌, inl, inr,
  Bool-cases, eq_refl,
}
use redcloud_files.Base.Dict
use redcloud_files.Chunkserver.Storage.{Bytes}
use redcloud_files.Chunkserver.Storage.Pieces.{concat}
use redcloud_files.Protocol.Json.{Json}
use redcloud_files.Http.{Response}
use redcloud_files.Cli.Client.{
  Outcome, responds, connect_error, timeout_exception, other_exception, Reply, returned, raised,
  RetryConfig,
}
use redcloud_files.Cli.Client.Attempts.{
  last_attempt, AllRetried, after_requests, after_requests-suc,
}
use redcloud_files.Cli.Client.Server.{Failure, no_connection, timed_out, broken_off, reported}
use redcloud_files.Cli.Client.Commands.{get_auth_header}
use redcloud_files.Cli.Client.Transfers.{
  Stream, no_answer, stream, is_download_retried, downloaded, Saving, write_stream, save,
  downloaded_reply, download_with, download,
}

-- the stream came to its end, and the file has all of it
pub record IsWhole (S : Type 0) (output_file : String) (sent : Stream × S) (after : Saving S)
    : Type 0 where
  pub response : Response
  pub total_size : ℕ
  pub received : List Bytes
  pub next : S
  pub complete : sent ≡ (stream response total_size received none, next)
  pub written : Dict.lookup output_file after.disk ≡ some (concat received)

no_failure : (failure : Failure) {r : Response} → reported failure ≡ responds r → ⊥
unfolding reported
no_failure no_connection h = cc
no_failure timed_out h = cc
no_failure broken_off h = cc

responded_with :
    (response : Response) {r : Response} → responds response ≡ responds r → response ≡ r
responded_with response h =
    ap
      (λ (o : Outcome). elim o [
        | responds q ↦ q
        | connect_error ↦ response
        | timeout_exception ↦ response
        | other_exception ↦ response
      ])
      h

module _ {S : Type 0} (output_file : String) where
  written-IsWhole :
      (response : Response) (total : ℕ) (received : List Bytes) (broken_by : Option Failure)
      (next : S) (disk : Dict.Dict Bytes) {r : Response} {after : Saving S}
      → write_stream (some output_file) response total received broken_by next disk
        ≡ (responds r, after)
      → IsWhole S output_file (stream response total received broken_by, next) after
  unfolding write_stream
  written-IsWhole response total received none next disk {r} {after} h =
      let disk_after : Dict.insert output_file (concat received) disk ≡ after.disk =
        ap (λ (p : Outcome × Saving S). p.1.disk) h in
      record {
        response = response;
        total_size = total;
        received = received;
        next = next;
        complete = refl;
        written = rw⁻¹ disk_after (
            rw
              (
                Dict.lookup-insert output_file output_file (concat received) disk,
                eq_refl output_file,
              )
              refl);
      }
  written-IsWhole response total received (some failure) next disk h =
      absurd (no_failure failure (ap (λ (p : Outcome × Saving S). p.0) h))

  saved-IsWhole :
      (sent : Stream × S) (disk : Dict.Dict Bytes) {r : Response} {after : Saving S}
      → save (some output_file) sent disk ≡ (responds r, after)
      → r.status_code == 200 ≡ true
      → IsWhole S output_file sent after
  unfolding save
  saved-IsWhole (no_answer failure, next) disk h ok =
      absurd (no_failure failure (ap (λ (p : Outcome × Saving S). p.0) h))
  saved-IsWhole (stream response total received broken_by, next) disk h ok =
      elim (Bool-cases (response.status_code == 200)) [
        | inl good ↦ written-IsWhole response total received broken_by next disk (rw good at h)
        | inr bad ↦
            let same : response ≡ _ =
              responded_with response (ap (λ (p : Outcome × Saving S). p.0) (rw bad at h)) in
            let worse = rw same at bad in absurd (cc)
      ]

  -- one request of a download, which streams into the file
  abbrev pub saving_request :
      (String → String → S → Stream × S) → String → String → Saving S → Outcome × Saving S
  saving_request get header filename saving =
      save (some output_file) (get header filename saving.server) saving.disk

  succeeded :
      (str_json : Json → String) (config : RetryConfig) (get : String → String → S → Stream × S)
      (filename error : String) (size n : ℕ) (result : Reply)
      → downloaded_reply str_json config get filename (some output_file) error n result
        ≡ downloaded filename size output_file
      → (r : Response) × (result ≡ returned r) × (r.status_code == 200 ≡ true)
  unfolding downloaded_reply
  succeeded str_json config get filename error size n (raised e) h = absurd (cc)
  succeeded str_json config get filename error size n (returned r) h =
      elim (Bool-cases (r.status_code == 200)) [
        | inl good ↦ (r, refl, good)
        | inr bad ↦ absurd (cc (rw bad at h))
      ]

  -- Where download says that it saved a file, it sent a number of requests that were all tried
  -- again, at most max_retries, and one more after them, which was its last; the stream that the
  -- server gives for that last one, in the state that the requests before it left, came to its end,
  -- and the file has all that it sent, whatever the attempts before it had written.
  pub download-IsWhole :
      (str_json : Json → String) (config : RetryConfig) (get : String → String → S → Stream × S)
      (api_key : Option String) (header filename error : String) (size : ℕ) (s : Saving S)
      → get_auth_header api_key ≡ some header
      → (download str_json config get api_key filename (some output_file) error s).0
        ≡ downloaded filename size output_file
      → (retries : ℕ) × (retries ≤ config.max_retries)
        × AllRetried is_download_retried (saving_request get header filename) retries s
        × (after_requests is_download_retried (saving_request get header filename) (suc retries) s
            ≡ (download str_json config get api_key filename (some output_file) error s).1)
        × IsWhole S output_file
            (get header filename
              (after_requests is_download_retried
                (saving_request get header filename)
                retries
                s).server)
            (download str_json config get api_key filename (some output_file) error s).1
  unfolding download download_with
  download-IsWhole str_json config get api_key header filename error size s key h = rw key (
      let request = saving_request get header filename in
      let (r, back, good) = succeeded str_json config get filename error size _ _ (rw key at h) in
      let (retries, few, again, last) =
        last_attempt is_download_retried request config.retry_backoff_multiplier
          (suc config.max_retries) 0 config.max_retries s back in
      let before = after_requests is_download_retried request retries s in
      (
        retries,
        few,
        again,
        after_requests-suc is_download_retried request retries s
            ∙ ap (λ (p : Outcome × Saving S). p.1) last,
        saved-IsWhole (get header filename before.server) before.disk last good,
      ))
