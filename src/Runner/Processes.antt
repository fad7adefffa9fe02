-- ===== src/Runner/Processes.antt =====
-- The runner never has two clients (runner/src/runner.rs).
use interbtc_clients.Prelude.{
  ◌≡◌, refl, ap, ◌∙◌, not, Option, none, some, List, [], ◌∷◌, ◌==◌, if◌then◌else◌, if_cases,
  filter_by, Result, ok, err, arith, All,
}
use interbtc_clients.Runner.Errors.{Error}
use interbtc_clients.Runner.{
  Pid, Bytes, FilePath, ClientRelease, DownloadedRelease, Runner, Answers, M, ◌>>=◌, ◌>>◌, lift,
  get, try_load_downloaded_binary, open_file, write_bytes, fetch_binary, download_binary,
  delete_release, delete_downloaded_release, terminate, terminate_proc_and_wait, check_alive,
  check_child_proc_alive, spawn_release, run_unless_child, run_binary, maybe_restart_client,
  load_or_download, start, update_client, update_if_new, round, rounds, run,
}

-- The processes that the child field stands for.
abbrev pub child_of : Option Pid → List Pid
child_of none = []
child_of (some pid) = pid ∷ []

-- The process in the child field is the only one that was started and not waited for.
abbrev pub IsSingle : Runner → Type 0
IsSingle r = r.processes ≡ child_of r.child_proc

-- The operating system lets the runner wait for its child.
abbrev pub CanWait : Answers → Type 0
CanWait a = (pid : Pid) → a.wait pid ≡ ok tt

abbrev Keeps : {A : Type 0} → M A → Type 0
Keeps m = (r : Runner) → IsSingle r → IsSingle (m r).1

-- What comes after a step that keeps the invariant.
bind-Keeps :
    {A B : Type 0} (m : M A) (f : A → M B) → Keeps m → ((a : A) → Keeps (f a)) → Keeps (m >>= f)
bind-Keeps {A} {B} m f h k r p = go (m r).0 (h r p)
  where
    go :
        (x : Result A Error)
        → IsSingle (m r).1
        → IsSingle
            (elim x as (λ _. Result B Error × Runner) [
              | ok a ↦ f a (m r).1
              | err e ↦ (err e, (m r).1)
            ]).1
    go (ok a) q = k a (m r).1 q
    go (err e) q = q

try_load-Keeps :
    (a : Answers) (release : ClientRelease) → Keeps (try_load_downloaded_binary a release)
unfolding try_load_downloaded_binary
try_load-Keeps a release r h = ground (arith, h)

open_file-Keeps : (a : Answers) (path : FilePath) → Keeps (open_file a path)
unfolding open_file
open_file-Keeps a path r h = ground (arith, h)

write_bytes-Keeps :
    (a : Answers) (path : FilePath) (bytes : Bytes) → Keeps (write_bytes a path bytes)
unfolding write_bytes
write_bytes-Keeps a path bytes r h = ground (arith, h)

fetch_binary-Keeps : (a : Answers) (release : ClientRelease) → Keeps (fetch_binary a release)
unfolding fetch_binary
fetch_binary-Keeps a release r h = ground (arith, h)

download_binary-Keeps : (a : Answers) (release : ClientRelease) → Keeps (download_binary a release)
unfolding download_binary
download_binary-Keeps a release r h = ground (arith, h, fetch_binary-Keeps a release r h)

delete_downloaded_release-Keeps : (a : Answers) → Keeps (delete_downloaded_release a)
unfolding delete_downloaded_release delete_release
delete_downloaded_release-Keeps a r h = ground (arith, h)

-- Without the only process there is none.
filter_by-single : (pid : Pid) → filter_by (λ p. not (p == pid)) (pid ∷ []) ≡ []
filter_by-single pid = ground arith

abbrev reaped : Pid → Runner → Runner
reaped pid r = record r {
  child_proc = none;
  processes = filter_by (λ p. not (p == pid)) r.processes;
}

reaped-IsSingle : (pid : Pid) (r : Runner) → r.processes ≡ pid ∷ [] → IsSingle (reaped pid r)
reaped-IsSingle pid r h = ap (filter_by (λ p. not (p == pid))) h ∙ filter_by-single pid

terminate_proc_and_wait-Keeps : (a : Answers) → CanWait a → Keeps (terminate_proc_and_wait a)
unfolding terminate_proc_and_wait terminate
terminate_proc_and_wait-Keeps a w r h = go r.child_proc refl
  where
    go : (c : Option Pid) → r.child_proc ≡ c → IsSingle (terminate a c r).1
    go none k = h
    go (some pid) k =
        let only : r.processes ≡ pid ∷ [] = h ∙ ap child_of k in
        ground (arith, h, k, w pid, reaped-IsSingle pid r only)

check_child_proc_alive-Keeps : (a : Answers) → Keeps (check_child_proc_alive a)
unfolding check_child_proc_alive check_alive
check_child_proc_alive-Keeps a r h = go r.child_proc refl
  where
    go : (c : Option Pid) → r.child_proc ≡ c → IsSingle (check_alive a c r).1
    go none k = h
    go (some pid) k =
        let only : r.processes ≡ pid ∷ [] = h ∙ ap child_of k in
        ground (arith, h, k, reaped-IsSingle pid r only)

run_binary-Keeps : (a : Answers) → Keeps (run_binary a)
unfolding run_binary run_unless_child
run_binary-Keeps a r h = go r.child_proc refl
  where
    spawned :
        (d : Option DownloadedRelease) → r.child_proc ≡ none → IsSingle (spawn_release a d r).1
    spawned none k = unfold spawn_release in h
    spawned (some d) k = unfold spawn_release in ground (arith, h, k)

    go : (c : Option Pid) → r.child_proc ≡ c → IsSingle (run_unless_child a c r).1
    go none k = spawned r.downloaded_release k
    go (some pid) k = h

maybe_restart_client-Keeps : (a : Answers) → Keeps (maybe_restart_client a)
unfolding maybe_restart_client
maybe_restart_client-Keeps a =
    bind-Keeps (check_child_proc_alive a) (λ alive. if alive then lift (ok tt) else run_binary a)
      (check_child_proc_alive-Keeps a)
      (λ alive.
        if_cases Keeps alive (lift (ok tt)) (run_binary a) (λ _ r h. h) (λ _. run_binary-Keeps a))

load_or_download-Keeps :
    (a : Answers) (release : ClientRelease) → Keeps (load_or_download a release)
unfolding load_or_download
load_or_download-Keeps a release r h = ground (
  arith,
  try_load-Keeps a release r h,
  download_binary-Keeps a release (try_load_downloaded_binary a release r).1,
)

start-Keeps : (a : Answers) (release : ClientRelease) → Keeps (start a release)
unfolding start
start-Keeps a release =
    bind-Keeps (lift a.create_dir_all >> load_or_download a release) (λ _. run_binary a)
      (bind-Keeps (lift a.create_dir_all) (λ _. load_or_download a release) (λ r h. h)
        (λ _. load_or_download-Keeps a release))
      (λ _. run_binary-Keeps a)

update_client-Keeps :
    (a : Answers) (release : ClientRelease) → CanWait a → Keeps (update_client a release)
unfolding update_client
update_client-Keeps a release w =
    bind-Keeps (terminate_proc_and_wait a)
      (λ _. delete_downloaded_release a >> download_binary a release >> run_binary a)
      (terminate_proc_and_wait-Keeps a w)
      (λ _.
        bind-Keeps (delete_downloaded_release a >> download_binary a release) (λ _. run_binary a)
          (bind-Keeps (delete_downloaded_release a) (λ _. download_binary a release)
            (delete_downloaded_release-Keeps a) (λ _. download_binary-Keeps a release))
          (λ _. run_binary-Keeps a))

update_if_new-Keeps :
    (a : Answers) (release : ClientRelease) (d : Option DownloadedRelease)
    → CanWait a
    → Keeps (update_if_new a release d)
unfolding update_if_new
update_if_new-Keeps a release none w = λ r h. h
update_if_new-Keeps a release (some d) w =
    if_cases Keeps (release.checksum == d.checksum) (lift (ok tt)) (update_client a release)
      (λ _ r h. h) (λ _. update_client-Keeps a release w)

round-Keeps : (a : Answers) → CanWait a → Keeps (round a)
unfolding round
round-Keeps a w =
    bind-Keeps (maybe_restart_client a) (λ _. looks) (maybe_restart_client-Keeps a)
      (λ _. bind-Keeps (lift a.try_get_release) updates (λ r h. h) update)
  where
    updates : Option ClientRelease → M (Unit {0})
    updates release = elim release [
      | none ↦ lift (ok tt)
      | some x ↦ get >>= λ r. update_if_new a x r.downloaded_release
    ]

    looks : M (Unit {0})
    looks = lift a.try_get_release >>= updates

    update : (release : Option ClientRelease) → Keeps (updates release)
    update none = λ r h. h
    update (some x) = λ r h. update_if_new-Keeps a x r.downloaded_release w r h

rounds-Keeps : (as' : List Answers) → All CanWait as' → Keeps (rounds as')
unfolding rounds
rounds-Keeps [] w = λ r h. h
rounds-Keeps (a ∷ as') (w, ws) =
    bind-Keeps (round a) (λ _. rounds as') (round-Keeps a w) (λ _. rounds-Keeps as' ws)

terminated :
    (a : Answers) (r : Runner) (pid : Pid)
    → CanWait a
    → IsSingle r
    → (terminate_proc_and_wait a r).0 ≡ ok pid
    → (terminate_proc_and_wait a r).1.processes ≡ []
unfolding terminate_proc_and_wait terminate
terminated a r pid w h = go r.child_proc refl
  where
    go :
        (c : Option Pid)
        → r.child_proc ≡ c
        → (terminate a c r).0 ≡ ok pid
        → (terminate a c r).1.processes ≡ []
    go none k e = h ∙ ap child_of k
    go (some p) k e =
        let only : r.processes ≡ p ∷ [] = h ∙ ap child_of k in
        ground (arith, e, w p, reaped-IsSingle p r only)

-- Where the operating system lets the runner wait for its children, there are never two clients:
-- from a state in which the child field names the only process, starting and any number of rounds,
-- whatever fails in them, lead to such a state again; and if the runner then terminates its child
-- successfully, no process is left.
pub never_two_clients :
    (a : Answers) (release : ClientRelease) (as' : List Answers) (last_answers : Answers)
    (r : Runner)
    → CanWait a
    → All CanWait as'
    → CanWait last_answers
    → IsSingle r
    → IsSingle ((start a release >> rounds as') r).1
      × ((pid : Pid)
          → (run a release as' last_answers r).0 ≡ ok pid
          → (run a release as' last_answers r).1.processes ≡ [])
unfolding run
never_two_clients a release as' last_answers r w ws l h =
    let single : IsSingle ((start a release >> rounds as') r).1 =
      bind-Keeps (start a release) (λ _. rounds as') (start-Keeps a release)
        (λ _. rounds-Keeps as' ws) r h in
    (single, λ pid e. terminated last_answers ((start a release >> rounds as') r).1 pid l single e)
