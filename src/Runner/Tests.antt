-- ===== src/Runner/Tests.antt =====
-- The runner over two releases (runner/src/runner.rs). A checksum is the sum of the bytes.
use interbtc_clients.Prelude.{
  ℕ, ◌≡◌, ◌+◌, refl, true, false, some, none, [], ◌∷◌, ok, err, ◌==◌, if◌then◌else◌,
}
use interbtc_clients.Runner.Errors.{incorrect_checksum, child_process_exists}
use interbtc_clients.Runner.ClientTypes.{oracle, from_str, to_string}
use interbtc_clients.Runner.{
  Pid, Bytes, ClientRelease, Runner, Answers, get_bin_path, read_file, try_load_downloaded_binary,
  open_file, write_bytes, fetch_binary, is_downloaded, download_binary, delete_release,
  delete_downloaded_release, terminate, terminate_proc_and_wait, check_alive,
  check_child_proc_alive, spawn_release, run_unless_child, run_binary, maybe_restart_client,
  load_or_download, start, update_client, update_if_new, round, rounds, run, ◌>>◌,
}
use interbtc_clients.Runner.Processes.{IsSingle, never_two_clients}
use interbtc_clients.Runner.Releases.{Runs, round-Runs, download_binary_keeps_tail}

abbrev sum : Bytes → ℕ
sum [] = 0
sum (b ∷ bs) = b + sum bs

abbrev release : ℕ → ClientRelease
release checksum = record { uri = b'v' ∷ b'/' ∷ []; checksum = checksum }

-- The parachain names the release with this checksum, and its binary is two bytes.
abbrev answers : ℕ → Pid → Answers
answers checksum pid = record {
  sha256sum = sum;
  path_segments = λ uri. ok (some (uri ∷ []));
  join = λ _. 1;
  create_dir_all = ok tt;
  can_read = λ _. true;
  open_path = λ _. ok tt;
  get_request_bytes = λ _. ok (3 ∷ 4 ∷ []);
  write_all = λ _. ok tt;
  sync_all = λ _. ok tt;
  remove_file = λ _. ok tt;
  wait = λ _. ok tt;
  try_wait = λ _. ok false;
  spawn = λ _. ok pid;
  try_get_release = ok (some (release checksum));
}

abbrev initial : Runner
initial = record {
  child_proc = none;
  downloaded_release = none;
  files = λ p. if p == 1 then some (9 ∷ 9 ∷ 9 ∷ []) else none;
  processes = [];
}

abbrev running : ℕ → Bytes → Pid → Runner
running checksum content pid = record {
  child_proc = some pid;
  downloaded_release = some (record { checksum = checksum; path = 1; bin_name = b'v' ∷ [] });
  files = λ p. if p == 1 then some content else none;
  processes = pid ∷ [];
}

path_of : get_bin_path (answers 7 50) (b'v' ∷ b'/' ∷ b'/' ∷ []) ≡ ok (b'v' ∷ [], 1)
unfolding get_bin_path
path_of = refl

parsed : from_str (to_string oracle) ≡ ok oracle
unfolding from_str to_string
parsed = refl

not_loaded :
    (try_load_downloaded_binary (answers 7 50) (release 7) initial).0 ≡ err incorrect_checksum
unfolding try_load_downloaded_binary get_bin_path
not_loaded = refl

started : (start (answers 7 50) (release 7) initial).1.processes ≡ 50 ∷ []
unfolding start get_bin_path
started = refl

twice : (run_binary (answers 7 51) (running 7 (3 ∷ 4 ∷ []) 50)).0 ≡ err child_process_exists
unfolding run_binary
twice = refl

updated : (round (answers 8 60) (running 7 (3 ∷ 4 ∷ []) 50)).1.processes ≡ 60 ∷ []
unfolding round maybe_restart_client check_child_proc_alive check_alive update_if_new update_client
    terminate_proc_and_wait terminate delete_downloaded_release delete_release download_binary
    fetch_binary open_file write_bytes is_downloaded run_binary run_unless_child spawn_release
    get_bin_path
updated = refl

updated_ok : (round (answers 8 60) (running 7 (3 ∷ 4 ∷ []) 50)).0 ≡ ok tt
unfolding round get_bin_path
updated_ok = refl

stopped :
    (run (answers 7 50) (release 7) (answers 8 60 ∷ []) (answers 8 60) initial).1.processes ≡ []
unfolding run rounds start load_or_download read_file round get_bin_path
stopped = refl

round-Runs_example : Runs (release 8) (round (answers 8 60) (running 7 (3 ∷ 4 ∷ []) 50)).1
round-Runs_example =
    round-Runs (answers 8 60) (release 8) (running 7 (3 ∷ 4 ∷ []) 50) refl updated_ok

never_two_clients_example :
    IsSingle ((start (answers 7 50) (release 7) >> rounds (answers 8 60 ∷ [])) initial).1
    × ((pid : Pid)
        → (run (answers 7 50) (release 7) (answers 8 60 ∷ []) (answers 8 60) initial).0 ≡ ok pid
        → (run (answers 7 50) (release 7) (answers 8 60 ∷ []) (answers 8 60) initial).1.processes
          ≡ [])
never_two_clients_example =
    never_two_clients (answers 7 50) (release 7) (answers 8 60 ∷ []) (answers 8 60) initial
      (λ _. refl) ((λ _. refl), tt) (λ _. refl) refl

no_release_yet : is_downloaded (release 7) none ≡ false
unfolding is_downloaded
no_release_yet = refl

path_of_release : get_bin_path (answers 7 50) (release 7).uri ≡ ok (b'v' ∷ [], 1)
unfolding get_bin_path
path_of_release = refl

download_binary_keeps_tail_example :
    ((download_binary (answers 7 50) (release 7) initial).0 ≡ ok tt)
    × ((download_binary (answers 7 50) (release 7) initial).1.downloaded_release
        ≡ some (record { checksum = 7; path = 1; bin_name = b'v' ∷ [] }))
    × ((download_binary (answers 7 50) (release 7) initial).1.files 1 ≡ some (3 ∷ 4 ∷ 9 ∷ []))
download_binary_keeps_tail_example =
    download_binary_keeps_tail (answers 7 50) (release 7) initial (b'v' ∷ []) 1 (3 ∷ 4 ∷ [])
      (9 ∷ 9 ∷ 9 ∷ []) no_release_yet path_of_release refl refl refl refl refl
