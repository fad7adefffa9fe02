-- ===== src/Runner/Releases.antt =====
-- Which release the runner runs, and what it downloads (runner/src/runner.rs).
use interbtc_clients.Prelude.{
  ℕ, ◌≡◌, refl, sym, ap, ◌∙◌, Bool, true, false, Option, none, some, List, ◌++◌, length, ◌==◌,
  if_cases, Result, ok, err, arith,
}
use mathlib.Core.Path.{subst}
use interbtc_clients.Runner.Errors.{Error}
use interbtc_clients.Runner.{
  Pid, Bytes, FilePath, ClientRelease, DownloadedRelease, Runner, Answers, M, ◌>>=◌, ◌>>◌, lift,
  get, get_bin_path, drop, open_file, write_bytes, fetch_binary, is_downloaded, download_binary,
  spawn_release, run_unless_child, run_binary, check_alive, check_child_proc_alive,
  maybe_restart_client, delete_downloaded_release, terminate_proc_and_wait, update_client,
  update_if_new, round,
}

abbrev pub is_running : Option Pid → Bool
is_running none = false
is_running (some pid) = true

-- The runner has the release and has a child.
abbrev pub Runs : ClientRelease → Runner → Type 0
Runs release r =
    (is_downloaded release r.downloaded_release ≡ true) × (is_running r.child_proc ≡ true)

-- A success of two steps is one of both.
bind-ok :
    {A B : Type 0} (m : M A) (f : A → M B) (r : Runner) (b : B)
    → ((m >>= f) r).0 ≡ ok b
    → (a : A) × ((m r).0 ≡ ok a) × ((m >>= f) r ≡ f a (m r).1)
bind-ok {A} {B} m f r b = go (m r).0 refl
  where
    go :
        (x : Result A Error)
        → (m r).0 ≡ x
        → (elim x as (λ _. Result B Error × Runner) [
          | ok a ↦ f a (m r).1
          | err e ↦ (err e, (m r).1)
        ]).0
          ≡ ok b
        → (a : A) × ((m r).0 ≡ ok a)
          × ((elim x as (λ _. Result B Error × Runner) [
            | ok a' ↦ f a' (m r).1
            | err e ↦ (err e, (m r).1)
          ])
              ≡ f a (m r).1)
    go (ok a) e h = (a, e, refl)
    go (err x) e h = cc

-- A success leaves a child, and the release as it was.
abbrev IsStarted : Runner → Result (Unit {0}) Error × Runner → Type 0
IsStarted r (x, r') =
    x ≡ ok tt → (is_running r'.child_proc ≡ true) × (r'.downloaded_release ≡ r.downloaded_release)

run_binary-IsStarted : (a : Answers) (r : Runner) → IsStarted r (run_binary a r)
unfolding run_binary run_unless_child
run_binary-IsStarted a r = go r.child_proc
  where
    spawned : (d : Option DownloadedRelease) → IsStarted r (spawn_release a d r)
    spawned none = unfold spawn_release in λ e. cc
    spawned (some d) = unfold spawn_release in λ e. ground (arith, e)

    go : (c : Option Pid) → IsStarted r (run_unless_child a c r)
    go none = spawned r.downloaded_release
    go (some pid) = λ e. cc

maybe_restart_client-IsStarted : (a : Answers) (r : Runner) → IsStarted r (maybe_restart_client a r)
unfolding maybe_restart_client check_child_proc_alive check_alive
maybe_restart_client-IsStarted a r e =
    ground
      (arith, e, run_binary-IsStarted a r, run_binary-IsStarted a (check_child_proc_alive a r).1)

download_binary-is_downloaded :
    (a : Answers) (release : ClientRelease) (r : Runner)
    → (download_binary a release r).0 ≡ ok tt
    → is_downloaded release (download_binary a release r).1.downloaded_release ≡ true
unfolding download_binary fetch_binary is_downloaded open_file write_bytes
download_binary-is_downloaded a release r e = ground (arith, e)

-- A step whose success has the release.
abbrev Obtains : ClientRelease → M (Unit {0}) → Type 0
Obtains release m =
    (r : Runner) → (m r).0 ≡ ok tt → is_downloaded release (m r).1.downloaded_release ≡ true

abbrev RunsAfter : ClientRelease → Result (Unit {0}) Error × Runner → Type 0
RunsAfter release (x, r) = x ≡ ok tt → Runs release r

run-RunsAfter :
    (a : Answers) (release : ClientRelease) (r : Runner)
    → is_downloaded release r.downloaded_release ≡ true
    → RunsAfter release (run_binary a r)
run-RunsAfter a release r d e =
    let (running, same) = run_binary-IsStarted a r e in
    (ap (is_downloaded release) same ∙ d, running)

then_run-RunsAfter :
    (a : Answers) (release : ClientRelease) (m : M (Unit {0}))
    → Obtains release m
    → (r : Runner) → RunsAfter release ((m >> run_binary a) r)
then_run-RunsAfter a release m o r e =
    let (_, x, s) = bind-ok m (λ _. run_binary a) r tt e in
    subst (λ (y : Result (Unit {0}) Error × Runner). RunsAfter release y) (sym s)
      (run-RunsAfter a release (m r).1 (o r x)) e

-- What comes before does not matter.
after-Obtains :
    {A : Type 0} (release : ClientRelease) (k : M A) (m : A → M (Unit {0}))
    → ((a : A) → Obtains release (m a))
    → Obtains release (k >>= m)
after-Obtains release k m o r e =
    let (b, x, s) = bind-ok k m r tt e in
    subst
      (λ (y : Result (Unit {0}) Error × Runner).
        y.0 ≡ ok tt → is_downloaded release y.1.downloaded_release ≡ true)
      (sym s) (o b (k r).1) e

after-RunsAfter :
    {A : Type 0} (release : ClientRelease) (k : M A) (m : A → M (Unit {0}))
    → ((a : A) (r : Runner) → RunsAfter release (m a r))
    → (r : Runner) → RunsAfter release ((k >>= m) r)
after-RunsAfter release k m o r e =
    let (b, x, s) = bind-ok k m r tt e in
    subst (λ (y : Result (Unit {0}) Error × Runner). RunsAfter release y) (sym s) (o b (k r).1) e

update_client-RunsAfter :
    (a : Answers) (release : ClientRelease) (r : Runner)
    → RunsAfter release (update_client a release r)
unfolding update_client
update_client-RunsAfter a release =
    after-RunsAfter release (terminate_proc_and_wait a)
      (λ _. delete_downloaded_release a >> download_binary a release >> run_binary a)
      (λ _.
        then_run-RunsAfter a release (delete_downloaded_release a >> download_binary a release) (
          after-Obtains release (delete_downloaded_release a) (λ _. download_binary a release)
            (λ _. download_binary-is_downloaded a release)))

==_sym : (x y : ℕ) → (x == y) ≡ true → (y == x) ≡ true
==_sym x y e = ground (arith, e)

-- With a child already.
update_if_new-RunsAfter :
    (a : Answers) (release : ClientRelease) (d : Option DownloadedRelease) (r : Runner)
    → r.downloaded_release ≡ d
    → is_running r.child_proc ≡ true
    → RunsAfter release (update_if_new a release d r)
unfolding update_if_new
update_if_new-RunsAfter a release none r e h = λ x. cc
update_if_new-RunsAfter a release (some d) r e h =
    if_cases (λ (m : M (Unit {0})). RunsAfter release (m r)) (release.checksum == d.checksum) _ _
      (λ same _. (ap (is_downloaded release) e ∙ downloaded same, h))
      (λ _. update_client-RunsAfter a release r)
  where
    downloaded : (release.checksum == d.checksum) ≡ true → is_downloaded release (some d) ≡ true
    downloaded s = unfold is_downloaded in ==_sym release.checksum d.checksum s

-- After each round that succeeds, with a release on the parachain, the runner runs this release: it
-- has a child, and the release that it has downloaded carries the checksum that the parachain
-- names.
pub round-Runs :
    (a : Answers) (release : ClientRelease) (r : Runner)
    → a.try_get_release ≡ ok (some release)
    → (round a r).0 ≡ ok tt
    → Runs release (round a r).1
unfolding round
round-Runs a release r g e =
    let (_, x, s) = bind-ok (maybe_restart_client a) (λ _. looks) r tt e in
    subst (λ (y : Result (Unit {0}) Error × Runner). RunsAfter release y) (sym s)
      (looked (maybe_restart_client a r).1 (maybe_restart_client-IsStarted a r x).0) e
  where
    updates : Option ClientRelease → M (Unit {0})
    updates o = elim o [
      | none ↦ lift (ok tt)
      | some x ↦ get >>= λ r'. update_if_new a x r'.downloaded_release
    ]

    looks : M (Unit {0})
    looks = lift a.try_get_release >>= updates

    looked : (r' : Runner) → is_running r'.child_proc ≡ true → RunsAfter release (looks r')
    looked r' h =
        subst
          (λ (y : Result (Option ClientRelease) Error). RunsAfter release ((lift y >>= updates) r'))
          (sym g) (update_if_new-RunsAfter a release r'.downloaded_release r' refl h)

-- A download that succeeds is recorded under the checksum that the parachain names, whatever was
-- downloaded, and a file that is there already is written over from its start and not cut: where
-- the release is not the one at hand, the path is known, every operation succeeds and the file has
-- `old`, it has the new bytes and then what `old` has beyond their length.
pub download_binary_keeps_tail :
    (a : Answers) (release : ClientRelease) (r : Runner) (bin_name : List ℕ) (path : FilePath)
    (bytes old : Bytes)
    → is_downloaded release r.downloaded_release ≡ false
    → get_bin_path a release.uri ≡ ok (bin_name, path)
    → a.open_path path ≡ ok tt
    → a.get_request_bytes release.uri ≡ ok bytes
    → a.write_all path ≡ ok tt
    → a.sync_all path ≡ ok tt
    → r.files path ≡ some old
    → ((download_binary a release r).0 ≡ ok tt)
      × ((download_binary a release r).1.downloaded_release
          ≡ some (record { checksum = release.checksum; path = path; bin_name = bin_name }))
      × ((download_binary a release r).1.files path ≡ some (bytes ++ drop (length bytes) old))
unfolding download_binary fetch_binary open_file write_bytes
download_binary_keeps_tail a release r bin_name path bytes old d g o b w s f = (
  ground (arith, d, g, o, b, w, s, f),
  ground (arith, d, g, o, b, w, s, f),
  ground (arith, d, g, o, b, w, s, f),
)
