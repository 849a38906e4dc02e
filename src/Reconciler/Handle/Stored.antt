-- ===== src/Reconciler/Handle/Stored.antt =====
-- What handleScanResultStateAndPublish of internal/reconciler/reconcile.go leaves in the store.
use komodor_security_reporte.Prelude.{
  ℕ, ◌≡◌, ap, Bool, false, ◌++◌, if◌then◌else◌, Bool-cases, inl, inr, arith, ◌∙◌, ◌&&◌, ◌==◌, not,
  ◌≢◌, true, ◌∷◌, [], sym, refl,
}
use komodor_security_reporte.Prelude.Text.{
  Text, codes, text_eq, is_empty, text_eq_refl, text_eq_sound,
}
use komodor_security_reporte.Prelude.Decimal.{decimal}
use komodor_security_reporte.Registry.ImageRef.{ImageRef}
use komodor_security_reporte.Scanners.Result.{ScanResult, total}
use komodor_security_reporte.Policy.Evaluator.{fingerprint}
use komodor_security_reporte.Komodor.Publisher.{WorkloadContext, EventOptions, should_publish}
use komodor_security_reporte.State.Entry.{Entry}
use komodor_security_reporte.State.Backend.{
  Backend, IsReliable, Loaded, load_failed, absent, found, Loaded-cases, load, IsKept,
}
use komodor_security_reporte.Reconciler.Handle.{
  Outlets, publish_and_update, handle_scan_result_state_and_publish, state_key, latest_digest_key,
  cleanup_previous_digest_state, load_last_fingerprint,
}
use komodor_security_reporte.Reconciler.Handle.Published.{evaluate_publish-always, publish_count}

-- Whether a result is to be published and at least one outlet takes it.
unfoldable pub is_delivered : Outlets → Text → ScanResult → WorkloadContext → EventOptions → Bool
is_delivered outlets scanner result workload opts =
    should_publish result opts && not (publish_count outlets scanner result workload opts == 0)

-- The entry that the handler writes for a result that it has published.
unfoldable pub published_entry : (Text → Text) → ℕ → ScanResult → Entry
published_entry hash now result = record {
  fingerprint = fingerprint hash result;
  last_scanned_time = now;
  last_published_time = now;
  summary = decimal (total result.summary) ++ codes " findings";
}

-- The entry that points from an image to the state of its latest digest.
unfoldable pub latest_entry : ℕ → ImageRef → Text → Entry
latest_entry now resolved scanner = record {
  fingerprint = state_key resolved scanner;
  last_scanned_time = now;
  last_published_time = now;
  summary = resolved.digest;
}

-- Whether `j` is the key that a loaded entry points to, and not empty nor the key `k`.
unfoldable pub is_superseded : Loaded → Text → Text → Bool
is_superseded load_failed k j = false
is_superseded absent k j = false
is_superseded (found e) k j =
    not (is_empty e.fingerprint) && not (text_eq e.fingerprint k) && text_eq e.fingerprint j

text_eq_other : (a b : Text) → a ≢ b → text_eq a b ≡ false
text_eq_other a b other = elim (Bool-cases (text_eq a b)) [
  | inl same ↦ elim (other (text_eq_sound a b same)) [ ]
  | inr e ↦ e
]

is_empty-state_key :
    (resolved : ImageRef) (scanner : Text) → is_empty (state_key resolved scanner) ≡ false
unfolding state_key
is_empty-state_key resolved scanner = is_empty_lem resolved.digest
  where
    is_empty_lem : (t : Text) → is_empty (t ++ (codes "/" ++ scanner)) ≡ false
    is_empty_lem [] = refl
    is_empty_lem (b ∷ t) = refl

-- The key that an image's latest entry points to is superseded by every other key.
is_superseded-latest :
    (kept : Entry) (old : ImageRef) (scanner key : Text)
    → kept.fingerprint ≡ state_key old scanner
    → state_key old scanner ≢ key
    → is_superseded (found kept) key (state_key old scanner) ≡ true
unfolding is_superseded
is_superseded-latest kept old scanner key same other = rw (
  same,
  is_empty-state_key,
  text_eq_other (state_key old scanner) key other,
  text_eq_refl (state_key old scanner),
)

module _ {S : Type 0} (backend : Backend S) {stored : Entry → Loaded}
    (reliable : IsReliable backend stored) where
  cleanup_lem :
      (latest_key k j : Text) (s : S)
      → load backend (cleanup_previous_digest_state backend latest_key k s) j
        ≡ (if is_superseded (load backend s latest_key) k j then absent else load backend s j)
  unfolding cleanup_previous_digest_state is_superseded
  cleanup_lem latest_key k j s = elim (Loaded-cases (load backend s latest_key)) [
    | inl e ↦ rw (e, cleanup_previous_digest_state, is_superseded) (reliable.get_get s latest_key j)
    | inr (inl e) ↦
        rw (e, cleanup_previous_digest_state, is_superseded) (reliable.get_get s latest_key j)
    | inr (inr (entry, e)) ↦
        rw (e, cleanup_previous_digest_state, is_superseded)
          (ground (
            arith,
            reliable.get_delete (backend.get_entry s latest_key).1 entry.fingerprint j,
            reliable.get_get s latest_key j,
            Bool-cases (is_empty entry.fingerprint),
            Bool-cases (text_eq entry.fingerprint k),
          ))
  ]

  load_last_fingerprint_lem :
      (key j : Text) (s : S)
      → load backend (load_last_fingerprint backend key s).2 j ≡ load backend s j
  unfolding load_last_fingerprint
  load_last_fingerprint_lem key j s = elim (Loaded-cases (load backend s key)) [
    | inl e ↦ rw (e, load_last_fingerprint) (reliable.get_get s key j)
    | inr (inl e) ↦ rw (e, load_last_fingerprint) (reliable.get_get s key j)
    | inr (inr (entry, e)) ↦ rw (e, load_last_fingerprint) (reliable.get_get s key j)
  ]

  module _ (hash : Text → Text) (outlets : Outlets) (now : ℕ) (scanner : Text)
      (resolved : ImageRef) where
    module _ (result : ScanResult) (workload : WorkloadContext) (opts : EventOptions) (s : S)
        (j : Text) where
      update_stores :
          load backend
            (publish_and_update backend hash outlets now scanner resolved result workload opts s).0
            j
          ≡ (if not (publish_count outlets scanner result workload opts == 0)
                && text_eq (state_key resolved scanner) j
              then stored (published_entry hash now result)
              else load backend s j)
      unfolding publish_and_update publish_count published_entry
      update_stores = elim (Bool-cases (publish_count outlets scanner result workload opts == 0)) [
        | inl none_sent ↦ rw none_sent
        | inr some_sent ↦ rw some_sent (reliable.get_set s (state_key resolved scanner) j _)
      ]

    -- With a backend that does what it is asked, the handler leaves the entries as follows. The
    -- key of the result's digest has the result's fingerprint if the result was published, the
    -- image's latest key points to that key, the key it pointed to before is gone when it was
    -- another one, and every other entry is as before.
    pub handle_stores :
        (result : ScanResult) (workload : WorkloadContext) (opts : EventOptions) (s : S) (j : Text)
        → load backend
            (handle_scan_result_state_and_publish backend hash outlets now scanner resolved result
              workload opts s).0
            j
          ≡ (if is_delivered outlets scanner result workload opts
                && text_eq (state_key resolved scanner) j
              then stored (published_entry hash now result)
              else if text_eq (latest_digest_key resolved scanner) j
              then stored (latest_entry now resolved scanner)
              else if is_superseded
                  (load backend s (latest_digest_key resolved scanner))
                  (state_key resolved scanner)
                  j
              then absent
              else load backend s j)
    unfolding handle_scan_result_state_and_publish is_delivered latest_entry
    handle_stores result workload opts s j =
        let cleaned =
          cleanup_previous_digest_state backend (latest_digest_key resolved scanner)
            (state_key resolved scanner) s in
        let noted : S =
          (backend.set_entry cleaned (latest_digest_key resolved scanner)
            (latest_entry now resolved scanner)).1 in
        let after_latest =
          load_last_fingerprint_lem (state_key resolved scanner) j noted
          ∙ reliable.get_set cleaned (latest_digest_key resolved scanner) j
              (latest_entry now resolved scanner)
          ∙ ap
              (λ l.
                if text_eq (latest_digest_key resolved scanner) j
                then stored (latest_entry now resolved scanner)
                else l)
              (cleanup_lem (latest_digest_key resolved scanner) (state_key resolved scanner) j s) in
        elim (Bool-cases (should_publish result opts)) [
          | inl wanted ↦
              rw (evaluate_publish-always, wanted)
                (update_stores result workload opts _ j
                  ∙ ap
                      (λ l.
                        if not (publish_count outlets scanner result workload opts == 0)
                          && text_eq (state_key resolved scanner) j
                        then stored (published_entry hash now result)
                        else l)
                      after_latest)
          | inr refused ↦ rw (evaluate_publish-always, refused) after_latest
        ]

  -- When the tag of an image moves to another digest, handling the new digest's result removes the
  -- stored state of the old one, which handling the old result may have left, if the backend has
  -- kept the entry that points to it. The condition on the keys holds for every
  -- digest that does not start with `latest/`.
  pub digest_replaced :
      (hash : Text → Text) (outlets : Outlets) (now later : ℕ) (scanner : Text) (old new : ImageRef)
      (result newer : ScanResult) (workload : WorkloadContext) (opts : EventOptions) (s : S)
      → latest_digest_key old scanner ≡ latest_digest_key new scanner
      → state_key old scanner ≢ state_key new scanner
      → state_key old scanner ≢ latest_digest_key old scanner
      → IsKept stored (latest_entry now old scanner)
      → let handled =
          (handle_scan_result_state_and_publish backend hash outlets now scanner old result workload
            opts s).0 in
        load backend
          (handle_scan_result_state_and_publish backend hash outlets later scanner new newer
            workload opts handled).0
          (state_key old scanner)
        ≡ absent
  digest_replaced hash outlets now later scanner old new result newer workload opts s same other
        apart (kept, still, keeps) =
      let old_key = state_key old scanner in
      let latest_key = latest_digest_key old scanner in
      let handled : S =
        (handle_scan_result_state_and_publish backend hash outlets now scanner old result workload
          opts s).0 in
      let points : load backend handled latest_key ≡ found kept =
        handle_stores hash outlets now scanner old result workload opts s latest_key
        ∙ ground (arith, text_eq_other old_key latest_key apart, text_eq_refl latest_key)
        ∙ still in
      let keeps_key : kept.fingerprint ≡ state_key old scanner =
        keeps ∙ unfold latest_entry in refl in
      let superseded : is_superseded (load backend handled (latest_digest_key new scanner))
            (state_key new scanner) old_key
          ≡ true =
        ap (λ k. is_superseded (load backend handled k) (state_key new scanner) old_key) (sym same)
        ∙ ap (λ l. is_superseded l (state_key new scanner) old_key) points
        ∙ is_superseded-latest kept old scanner (state_key new scanner) keeps_key other in
      handle_stores hash outlets later scanner new newer workload opts handled old_key
      ∙ ground (
        arith,
        superseded,
        text_eq_other (state_key new scanner) old_key (λ e. other (sym e)),
        text_eq_other (latest_digest_key new scanner) old_key (λ e. apart (sym (same ∙ e))),
      )
