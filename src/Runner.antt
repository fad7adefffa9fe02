-- ===== src/Runner.antt =====
-- The runner downloads the client's binary, starts it and replaces it when the parachain names a
-- new release (runner/src/runner.rs). The files, the processes and the parachain are other systems:
-- the runner's state has the files and the processes that it has started, and the answers are
-- parameters. SHA-256, the parsing of addresses and the joining of paths are other crates'.
pub mod Errors
pub mod ClientTypes
pub mod Processes
pub mod Releases
mod Tests
use interbtc_clients.Prelude.{
  ℕ, zero, suc, Bool, true, false, not, Option, none, some, List, [], ◌∷◌, ◌++◌, length, leb, ◌==◌,
  if◌then◌else◌, filter_by, Result, ok, err,
}
use interbtc_clients.Runner.Errors.{
  Error, no_downloaded_release, child_process_exists, process_termination_failure,
  client_name_derivation_error, incorrect_checksum,
}

abbrev pub Bytes : Type 0
Bytes = List ℕ

-- A path and a name are texts as lists of characters.
abbrev pub FilePath : Type 0
FilePath = ℕ

abbrev pub Pid : Type 0
Pid = ℕ

pub record ClientRelease : Type 0 where
  pub uri : List ℕ
  pub checksum : ℕ

pub record DownloadedRelease : Type 0 where
  pub checksum : ℕ
  pub path : FilePath
  pub bin_name : List ℕ

-- `processes` has those that were started and that have not been waited for.
pub record Runner : Type 0 where
  pub child_proc : Option Pid
  pub downloaded_release : Option DownloadedRelease
  pub files : FilePath → Option Bytes
  pub processes : List Pid

-- The answers that one round meets, each after the retries.
pub record Answers : Type 0 where
  pub sha256sum : Bytes → ℕ
  -- `Url::parse` and `path_segments`
  pub path_segments : List ℕ → Result (Option (List (List ℕ))) Error
  -- `download_path().join`
  pub join : List ℕ → FilePath
  pub create_dir_all : Result (Unit {0}) Error
  pub can_read : FilePath → Bool
  pub open_path : FilePath → Result (Unit {0}) Error
  pub get_request_bytes : List ℕ → Result Bytes Error
  -- an error comes with how much was written
  pub write_all : FilePath → Result (Unit {0}) (ℕ × Error)
  pub sync_all : FilePath → Result (Unit {0}) Error
  pub remove_file : FilePath → Result (Unit {0}) Error
  pub wait : Pid → Result (Unit {0}) Error
  -- whether the process has ended
  pub try_wait : Pid → Result Bool Error
  pub spawn : FilePath → Result Pid Error
  pub try_get_release : Result (Option ClientRelease) Error

-- The runner after an operation stays, also if it fails.
abbrev pub M : Type 0 → Type 0
M A = Runner → Result A Error × Runner

infixl 5 ◌>>=◌ ◌>>◌
abbrev pub ◌>>=◌ : {A B : Type 0} → M A → (A → M B) → M B
◌>>=◌ {A} {B} m f r = elim (m r).0 as (λ _. Result B Error × Runner) [
  | ok a ↦ f a (m r).1
  | err e ↦ (err e, (m r).1)
]

abbrev pub ◌>>◌ : {B : Type 0} → M (Unit {0}) → M B → M B
m >> k = m >>= λ _. k

abbrev pub lift : {A : Type 0} → Result A Error → M A
lift x r = (x, r)

abbrev pub get : M Runner
get r = (ok r, r)

abbrev pub modify : (Runner → Runner) → M (Unit {0})
modify f r = (ok tt, f r)

abbrev pub set_downloaded_release : Option DownloadedRelease → M (Unit {0})
set_downloaded_release d = modify (λ r. record r { downloaded_release = d })

abbrev pub set_child_proc : Option Pid → M (Unit {0})
set_child_proc p = modify (λ r. record r { child_proc = p })

abbrev pub write_file : FilePath → Option Bytes → M (Unit {0})
write_file path content =
    modify (λ r. record r { files = λ p. if p == path then content else r.files p })

-- `trim_end_matches('/')`
unfoldable pub trim_slashes : List ℕ → List ℕ
trim_slashes [] = []
trim_slashes (c ∷ cs) = elim (trim_slashes cs) [
  | [] ↦ if c == b'/' then [] else c ∷ []
  | d ∷ ds ↦ c ∷ d ∷ ds
]

abbrev last : List (List ℕ) → Option (List ℕ)
last [] = none
last (x ∷ []) = some x
last (x ∷ y ∷ rest) = last (y ∷ rest)

-- The last segment, if it is not empty.
unfoldable pub name_of : Option (List (List ℕ)) → Result (List ℕ) Error
name_of none = err client_name_derivation_error
name_of (some segments) = elim (last segments) [
  | none ↦ err client_name_derivation_error
  | some [] ↦ err client_name_derivation_error
  | some (c ∷ cs) ↦ ok (c ∷ cs)
]

unfoldable pub get_bin_path : Answers → List ℕ → Result (List ℕ × FilePath) Error
unfolding trim_slashes name_of
get_bin_path a uri = elim (a.path_segments (trim_slashes uri)) [
  | err e ↦ err e
  | ok segments ↦ elim (name_of segments) [
    | err e ↦ err e
    | ok bin_name ↦ ok (bin_name, a.join bin_name)
  ]
]

unfoldable pub read_file : Answers → FilePath → Runner → Result Bytes Error
read_file a path r = elim (r.files path) [
  | none ↦ err no_downloaded_release
  | some content ↦ if a.can_read path then ok content else err no_downloaded_release
]

unfoldable pub try_load_downloaded_binary : Answers → ClientRelease → M (Unit {0})
unfolding read_file
try_load_downloaded_binary a release = lift (get_bin_path a release.uri) >>= λ b. get >>= λ r.
    lift (read_file a b.1 r) >>= λ content.
    if a.sha256sum content == release.checksum
    then set_downloaded_release
        (some (record { checksum = a.sha256sum content; path = b.1; bin_name = b.0 }))
    else lift (err incorrect_checksum)

abbrev drop : ℕ → Bytes → Bytes
drop zero bs = bs
drop (suc n) [] = []
drop (suc n) (b ∷ bs) = drop n bs

abbrev take : ℕ → Bytes → Bytes
take zero bs = []
take (suc n) [] = []
take (suc n) (b ∷ bs) = b ∷ take n bs

-- Writing from the start of a file that has been opened without `truncate`.
abbrev pub overwrite : Bytes → Bytes → Bytes
overwrite bytes old = bytes ++ drop (length bytes) old

abbrev pub content_of : Option Bytes → Bytes
content_of none = []
content_of (some content) = content

-- `create(true)`: a file that is not there is made, and one that is there is left as it is.
unfoldable pub open_file : Answers → FilePath → M (Unit {0})
open_file a path =
    lift (a.open_path path) >> (get >>= λ r. write_file path (some (content_of (r.files path))))

unfoldable pub write_bytes : Answers → FilePath → Bytes → M (Unit {0})
write_bytes a path bytes = get >>= λ r. elim (a.write_all path) [
  | ok _ ↦ write_file path (some (overwrite bytes (content_of (r.files path))))
  | err (n, e) ↦
      write_file path (some (overwrite (take n bytes) (content_of (r.files path)))) >> lift (err e)
]

unfoldable pub fetch_binary : Answers → ClientRelease → M (Unit {0})
unfolding open_file write_bytes
fetch_binary a release = lift (get_bin_path a release.uri) >>= λ b.
    open_file a b.1
    >> (lift (a.get_request_bytes release.uri) >>= λ bytes.
        write_bytes a b.1 bytes
        >> lift (a.sync_all b.1)
        >> set_downloaded_release
            (some (record { checksum = release.checksum; path = b.1; bin_name = b.0 })))

unfoldable pub is_downloaded : ClientRelease → Option DownloadedRelease → Bool
is_downloaded release none = false
is_downloaded release (some d) = d.checksum == release.checksum

unfoldable pub download_binary : Answers → ClientRelease → M (Unit {0})
unfolding fetch_binary is_downloaded
download_binary a release r =
    if is_downloaded release r.downloaded_release then (ok tt, r) else fetch_binary a release r

unfoldable pub delete_release : Answers → Option DownloadedRelease → M (Unit {0})
delete_release a none = lift (err no_downloaded_release)
delete_release a (some release) =
    lift (a.remove_file release.path) >> write_file release.path none >> set_downloaded_release none

unfoldable pub delete_downloaded_release : Answers → M (Unit {0})
unfolding delete_release
delete_downloaded_release a r = delete_release a r.downloaded_release r

-- The process has been waited for.
abbrev pub reap : Pid → M (Unit {0})
reap pid = modify (λ r. record r { processes = filter_by (λ p. not (p == pid)) r.processes })

-- The largest `i32`, the type of the pid for `kill`.
abbrev i32_max : ℕ
i32_max = 2147483647

-- What `kill` answers is wrapped in `Ok`, and only a pid that is out of range is an error.
unfoldable pub terminate : Answers → Option Pid → M Pid
terminate a none = lift (ok 0)
terminate a (some pid) =
    if leb pid i32_max
    then elim (a.wait pid) [ ok _ ↦ reap pid | err _ ↦ lift (ok tt) ]
      >> set_child_proc none
      >> lift (ok pid)
    else lift (err process_termination_failure)

unfoldable pub terminate_proc_and_wait : Answers → M Pid
unfolding terminate
terminate_proc_and_wait a r = terminate a r.child_proc r

unfoldable pub check_alive : Answers → Option Pid → M Bool
check_alive a none = lift (ok false)
check_alive a (some pid) = lift (a.try_wait pid) >>= λ ended.
    if ended then reap pid >> set_child_proc none >> lift (ok false) else lift (ok true)

unfoldable pub check_child_proc_alive : Answers → M Bool
unfolding check_alive
check_child_proc_alive a r = check_alive a r.child_proc r

unfoldable pub spawn_release : Answers → Option DownloadedRelease → M (Unit {0})
spawn_release a none = lift (err no_downloaded_release)
spawn_release a (some release) = lift (a.spawn release.path) >>= λ pid.
    modify (λ r. record r { child_proc = some pid; processes = pid ∷ r.processes })

unfoldable pub run_unless_child : Answers → Option Pid → M (Unit {0})
unfolding spawn_release
run_unless_child a none r = spawn_release a r.downloaded_release r
run_unless_child a (some pid) r = (err child_process_exists, r)

unfoldable pub run_binary : Answers → M (Unit {0})
unfolding run_unless_child
run_binary a r = run_unless_child a r.child_proc r

unfoldable pub maybe_restart_client : Answers → M (Unit {0})
unfolding check_child_proc_alive run_binary
maybe_restart_client a =
    check_child_proc_alive a >>= λ alive. if alive then lift (ok tt) else run_binary a

-- `auto_update` up to its loop. Without a release on the chain it panics: no error is the runner's.
unfoldable pub load_or_download : Answers → ClientRelease → M (Unit {0})
unfolding try_load_downloaded_binary download_binary
load_or_download a release r = elim (try_load_downloaded_binary a release r).0 [
  | ok _ ↦ (ok tt, (try_load_downloaded_binary a release r).1)
  | err _ ↦ download_binary a release (try_load_downloaded_binary a release r).1
]

unfoldable pub start : Answers → ClientRelease → M (Unit {0})
unfolding load_or_download run_binary
start a release = lift a.create_dir_all >> load_or_download a release >> run_binary a

-- The client is replaced.
unfoldable pub update_client : Answers → ClientRelease → M (Unit {0})
unfolding terminate_proc_and_wait delete_downloaded_release download_binary run_binary
update_client a release = terminate_proc_and_wait a >>= λ _.
    delete_downloaded_release a >> download_binary a release >> run_binary a

unfoldable pub update_if_new : Answers → ClientRelease → Option DownloadedRelease → M (Unit {0})
unfolding update_client
update_if_new a release none = lift (err no_downloaded_release)
update_if_new a release (some d) =
    if release.checksum == d.checksum then lift (ok tt) else update_client a release

-- One round of the loop.
unfoldable pub round : Answers → M (Unit {0})
unfolding maybe_restart_client update_if_new
round a =
    maybe_restart_client a
    >> (lift a.try_get_release >>= λ release. elim release [
      | none ↦ lift (ok tt)
      | some x ↦ get >>= λ r. update_if_new a x r.downloaded_release
    ])

-- The rounds, up to the first that fails.
unfoldable pub rounds : List Answers → M (Unit {0})
unfolding round
rounds [] = lift (ok tt)
rounds (a ∷ as') = let rest = rounds as' in round a >> rest

-- `run`, for a failure and for a signal between two rounds: the child is terminated.
unfoldable pub run : Answers → ClientRelease → List Answers → Answers → M Pid
unfolding start rounds terminate_proc_and_wait
run a release as' last_answers r =
    let (result, r') = (start a release >> rounds as') r in terminate_proc_and_wait last_answers r'
