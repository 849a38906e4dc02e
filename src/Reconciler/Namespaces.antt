-- ===== src/Reconciler/Namespaces.antt =====
-- The goroutines of ReconcileAll in internal/reconciler/reconcile.go: the loop that starts one for
-- each namespace, and those that run meanwhile, one step of one of them at a time. A call of
-- reconcileWorkload is one step of its namespace here; Pool has the goroutines of its scans. A call
-- that fails since the context is cancelled can leave such goroutines running; the step takes their
-- number, and how they end is outside of this module.
pub mod Awaited
pub mod Items
pub mod Tallied
pub mod Returned
pub mod Ends
use komodor_security_reporte.Prelude.{
  ℕ, ◌+◌, ◌-◌, ◌<◌, ◌≡◌, Option, none, some, Bool, true, false, List, [], ◌∷◌, ◌++◌, length,
  if◌then◌else◌,
}
use komodor_security_reporte.Prelude.Text.{Text}
use komodor_security_reporte.Reconciler.Images.{
  WorkloadInfo, Cluster, list_workloads, resolve_namespaces, is_excluded,
}

-- Where the loop stands, with the namespaces that are left: at its head, at the semaphore, or in
-- nsWg.Wait, after the last namespace or since the context is cancelled.
pub data Place : Type 0 where
  choosing : List Text → Place
  requesting : Text → List Text → Place
  stopping awaiting : Place
  over : Bool → Place

-- What a goroutine has still to do, with nsWorkloads: to list the kinds, to reconcile the workloads
-- of a kind before the others, to add to totalWorkloads, to give its slot back, to call Done.
pub data Work : Type 0 where
  listing : List Text → ℕ → Work
  working : List WorkloadInfo → List Text → ℕ → Work
  totalling : ℕ → Work
  freeing exiting : Work

pub record Worker : Type 0 where
  pub namespace : Text
  pub work : Work

-- `slots` are in nsSemaphore, `group` is the counter of nsWg, `queue_depth` is the gauge, and
-- `successes` and `errors` count WorkloadsReconciledTotal. Two fields say what has happened:
-- `reconciled` has the workloads for which reconcileWorkload has returned, with their namespaces,
-- and `left_running` is the number of scans that were still running when it did.
pub record Workers : Type 0 where
  pub place : Place
  pub workers : List Worker
  pub slots : ℕ
  pub group : ℕ
  pub queue_depth : ℕ
  pub total_workloads : ℕ
  pub successes : ℕ
  pub errors : ℕ
  pub reconciled : List (Text × WorkloadInfo)
  pub left_running : ℕ

unfoldable pub begin_namespaces : List Text → Workers
begin_namespaces namespaces = record {
  place = choosing namespaces;
  workers = [];
  slots = 0;
  group = 0;
  queue_depth = 0;
  total_workloads = 0;
  successes = 0;
  errors = 0;
  reconciled = [];
  left_running = 0;
}

-- From the head of the loop to the semaphore.
unfoldable pub request_slot : Text → List Text → Workers → Workers
request_slot ns nss s = record s {
  place = requesting ns nss;
  group = s.group + 1;
  queue_depth = s.queue_depth + 1;
}

-- The slot is taken, and the goroutine is started.
unfoldable pub start_namespace : List Text → Text → List Text → Workers → Workers
start_namespace kinds ns nss s = record s {
  place = choosing nss;
  workers = s.workers ++ (record { namespace = ns; work = listing kinds 0 } ∷ []);
  slots = s.slots + 1;
  queue_depth = s.queue_depth - 1;
}

-- The context is cancelled before there is a slot.
unfoldable pub stop_waiting : Workers → Workers
stop_waiting s = record s { place = stopping; group = s.group - 1; queue_depth = s.queue_depth - 1 }

-- The head of the loop over the kinds.
unfoldable pub next_kind : Cluster → Text → List Text → ℕ → Work
unfolding list_workloads
next_kind cluster ns [] n = totalling n
next_kind cluster ns (kind ∷ kinds) n = elim (list_workloads cluster ns kind) [
  | none ↦ listing kinds n
  | some wls ↦ working wls kinds (n + length wls)
]

-- reconcileWorkload returns, with an error where some of its scans are still running.
unfoldable pub count_workload : Text → WorkloadInfo → Bool → ℕ → Workers → Workers
count_workload ns wl ok running s = record s {
  reconciled = s.reconciled ++ ((ns, wl) ∷ []);
  left_running = s.left_running + (if ok then 0 else running);
  successes = s.successes + (if ok then 1 else 0);
  errors = s.errors + (if ok then 0 else 1);
}

unfoldable pub add_total : ℕ → Workers → Workers
add_total n s = record s { total_workloads = s.total_workloads + n }

unfoldable pub free_slot : Workers → Workers
free_slot s = record s { slots = s.slots - 1 }

unfoldable pub exit_group : Workers → Workers
exit_group s = record s { group = s.group - 1 }

abbrev pub worker : Text → Work → Worker
worker ns work = record { namespace = ns; work = work }

abbrev pub turn : List Worker → Text → Work → List Worker → Workers → Workers
turn before ns work after s = record s { workers = before ++ (worker ns work ∷ after) }

abbrev pub Has : List Worker → Text → Work → List Worker → Workers → Type 0
Has before ns work after s = s.workers ≡ before ++ (worker ns work ∷ after)

-- A step of the loop or of a goroutine; a send on the semaphore needs room in it, a receive needs
-- a token, and Wait needs the counter to be 0. A workload can be reconciled with or without error.
module _ (cluster : Cluster) (kinds exclude : List Text) (concurrency : ℕ) where
  pub data Step (s t : Workers) : Type 0 where
    skip :
        (ns : Text) (nss : List Text)
        → s.place ≡ choosing (ns ∷ nss)
        → is_excluded ns exclude ≡ true
        → t ≡ record s { place = choosing nss }
        → Step s t
    request :
        (ns : Text) (nss : List Text)
        → s.place ≡ choosing (ns ∷ nss)
        → is_excluded ns exclude ≡ false
        → t ≡ request_slot ns nss s
        → Step s t
    take_slot :
        (ns : Text) (nss : List Text)
        → s.place ≡ requesting ns nss
        → s.slots < concurrency
        → t ≡ start_namespace kinds ns nss s
        → Step s t
    cancelled :
        (ns : Text) (nss : List Text) → s.place ≡ requesting ns nss → t ≡ stop_waiting s → Step s t
    return_error : s.place ≡ stopping → s.group ≡ 0 → t ≡ record s { place = over false } → Step s t
    last : s.place ≡ choosing [] → t ≡ record s { place = awaiting } → Step s t
    return_success :
        s.place ≡ awaiting → s.group ≡ 0 → t ≡ record s { place = over true } → Step s t
    list :
        (before after : List Worker) (ns : Text) (left : List Text) (n : ℕ)
        → Has before ns (listing left n) after s
        → t ≡ turn before ns (next_kind cluster ns left n) after s
        → Step s t
    reconcile :
        (before after : List Worker) (ns : Text) (wl : WorkloadInfo) (wls : List WorkloadInfo)
        (left : List Text) (n : ℕ) (ok : Bool) (running : ℕ)
        → Has before ns (working (wl ∷ wls) left n) after s
        → t ≡ turn before ns (working wls left n) after (count_workload ns wl ok running s)
        → Step s t
    kind_done :
        (before after : List Worker) (ns : Text) (left : List Text) (n : ℕ)
        → Has before ns (working [] left n) after s
        → t ≡ turn before ns (listing left n) after s
        → Step s t
    add :
        (before after : List Worker) (ns : Text) (n : ℕ)
        → Has before ns (totalling n) after s
        → t ≡ turn before ns freeing after (add_total n s)
        → Step s t
    free :
        (before after : List Worker) (ns : Text)
        → Has before ns freeing after s
        → 0 < s.slots
        → t ≡ turn before ns exiting after (free_slot s)
        → Step s t
    exit :
        (before after : List Worker) (ns : Text)
        → Has before ns exiting after s
        → t ≡ record (exit_group s) { workers = before ++ after }
        → Step s t

  pub data Reach (s : Workers) : Workers → Type 0 where
    here : Reach s s
    next : {t u : Workers} → Reach s t → Step t u → Reach s u
