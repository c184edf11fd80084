-- ===== src/Tests/Waits.antt =====
-- Runs of `Wait`.
use tmux_pane_control.Prelude.{
  ◌≡◌, refl, true, ap, [], ◌∷◌, List, none, some, Bytes, codes, arith, bytes_eq, has_prefix,
}
use tmux_pane_control.Prelude.Int64.{two63, leb64, ltb64, add64, sub64, rem64}
use tmux_pane_control.Token.{encode_token, decode_token}
use tmux_pane_control.Token.Base64.{encode_to_string, decode_string}
use tmux_pane_control.Prelude.Dict.{lookup, insert}
use tmux_pane_control.Buffer
use tmux_pane_control.Buffer.Copy.{copy_at}
use tmux_pane_control.Store
use tmux_pane_control.Store.{Store, new, new_token, watch, cancel}
use tmux_pane_control.Store.Spec
use tmux_pane_control.Store.Spec.{Op, append_op, watch_op, no_streams, AllFit}
use tmux_pane_control.Store.Refine.{Tracks, new-Tracks, apply_all}
use tmux_pane_control.Store.Watch.{HasKeys, find, touched}
use tmux_pane_control.Store.Checkpoint.{appended}
use tmux_pane_control.Textnorm.{strip_ansi_and_cr, strip_ansi, has_byte}
use tmux_pane_control.Waiter.{match_sentinel, match_from, index, take_digits, atoi, decimal_from}
use tmux_pane_control.Domain.{WaitResponse, wait_quiescence}
use tmux_pane_control.Controller.{pane_not_found_response}
use tmux_pane_control.Controller.Wait.{
  WaitRequest, sentinel, quiescence, Round, signalled, timed_out, matched, failed, continues, woken,
  wait, validate, validate_mode, validate_sentinel_token, loop, round, deferred, read_failed,
  map_wait_store_error, evaluate, is_quiet, reference, checkpoint_at,
}
use tmux_pane_control.Controller.Wait.Causes.{Failure, wait-Failure, Reported, wait-Reported}
use tmux_pane_control.Controller.Wait.Quiet.{Quieted, wait-Quieted}
use tmux_pane_control.Controller.Wait.Watcher.{wait-find}
use tmux_pane_control.Controller.Wait.Matched.{until_read, wait-sentinel}
use tmux_pane_control.Controller.Wait.Ends.{is_done}
use tmux_pane_control.Controller.Wait.Bounded.{wait_bounded}
use tmux_pane_control.Controller.Wait.Wakes.{wait-pending}
use tmux_pane_control.Controller.Wait.Rounds.{calls_between, wait-sentinel_rounds}
use tmux_pane_control.Controller.Wait.Rounds.Found.{Finds}
use tmux_pane_control.Tests.Sample.{
  codec, put, get, instance_name, pane, instance_plain, pane_plain,
}

abbrev pub empty : Store
empty = new 64 instance_name

pub empty-Tracks : Tracks empty no_streams
empty-Tracks = new-Tracks 64 instance_name (omega arith) (omega arith)

abbrev request : WaitRequest
request = record {
  pane_id = pane;
  after = (new_token codec empty pane 4).1;
  timeout_ns = 1000;
  mode = sentinel;
  sentinel_token = codes "t";
  quiet_window = 0;
  regex_find = none;
}

abbrev pub quiet_round : List Op → Round
quiet_round ops = record {
  before = ops;
  between = [];
  read_at = 9;
  meanwhile = [];
  since_at = 9;
  minting = [];
  mint_at = 9;
  waiting = [];
  wake = timed_out;
}

abbrev pub printed : Round
printed = quiet_round (append_op pane (codes "__:t:7\n") 6 ∷ [])

abbrev since : Bytes
since = codes "x__DONE__:t:7\n"

ops_fit :
    AllFit two63
      (Spec.ensure no_streams pane)
      (until_read request (append_op pane (codes "x__DONE") 5 ∷ []) printed)
unfolding Spec.step Spec.append Spec.ensure bytes_eq
ops_fit = (omega arith, (tt, (omega arith, tt)))

unbound : validate request ≡ none
unfolding validate validate_mode validate_sentinel_token leb64 ltb64 has_byte new_token encode_token
    encode_to_string put lookup new Store.buffer_locked
unbound = refl

abbrev called_on : Store
called_on =
    apply_all codec (new_token codec empty pane 4).0 (append_op pane (codes "x__DONE") 5 ∷ [])

unknown :
    wait codec request empty (quiet_round [] ∷ [])
    ≡ (cancel (watch empty pane).0 0, failed (pane_not_found_response pane))
unfolding wait loop round deferred read_failed map_wait_store_error validate validate_mode
    validate_sentinel_token leb64 ltb64 has_byte new_token encode_token encode_to_string put lookup
    new Store.buffer_locked apply_all Store.read Store.has_pane watch
unknown = refl

found :
    (w : WaitResponse) × (wait codec request called_on (printed ∷ [])
      ≡ ((wait codec request called_on (printed ∷ [])).0, matched w))
unfolding new appended bytes_eq has_byte strip_ansi_and_cr strip_ansi decimal_from
found =
    let q =
      wait-sentinel codec request empty no_streams 4 (append_op pane (codes "x__DONE") 5 ∷ [])
        printed [] (codes "x") (codes "7") (codes "\n") empty-Tracks instance_plain pane_plain
        (omega arith) unbound refl refl refl tt ops_fit (omega arith) refl (refl, tt) refl refl
        (omega arith) in
    (q.0, ap (λ o. ((wait codec request called_on (printed ∷ [])).0, o)) q.1)

wait-Reported_example : Reported codec request called_on (printed ∷ []) found.0
wait-Reported_example =
    wait-Reported codec request called_on (wait codec request called_on (printed ∷ [])).0
      (printed ∷ []) found.0 unbound refl found.1

wait-find_example :
    (find (watch empty pane).1 (cancel (watch empty pane).0 0).watchers ≡ none)
    × HasKeys (cancel (watch empty pane).0 0)
unfolding new
wait-find_example =
    wait-find codec request empty (cancel (watch empty pane).0 0) (quiet_round [] ∷ [])
      (failed (pane_not_found_response pane)) (omega arith) unknown refl

wait-Failure_example :
    Failure codec request empty (quiet_round [] ∷ []) (pane_not_found_response pane)
wait-Failure_example =
    wait-Failure codec request empty (cancel (watch empty pane).0 0) (quiet_round [] ∷ [])
      (pane_not_found_response pane) unbound unknown

abbrev still_request : WaitRequest
still_request = record request { mode = quiescence; quiet_window = 3 }

abbrev still : WaitResponse
still = record {
  pane_id = pane;
  next = (new_token codec called_on pane 9).1;
  result = wait_quiescence;
  matched = none;
  exit_code = none;
}

still_matched :
    wait codec still_request called_on (quiet_round [] ∷ [])
    ≡ ((wait codec still_request called_on (quiet_round [] ∷ [])).0, matched still)
unfolding wait loop round deferred validate validate_mode leb64 ltb64 new_token encode_token
    encode_to_string put lookup new Store.buffer_locked apply_all Store.read Store.has_pane watch
    evaluate is_quiet reference bytes_eq insert decode_token decode_string get Buffer.read
    Buffer.append Buffer.advance Buffer.drop_excess sub64 add64 Store.last_append checkpoint_at
    Store.token_time
still_matched = refl

wait-Quieted_example : Quieted codec still_request called_on (quiet_round [] ∷ []) still
unfolding validate validate_mode leb64 ltb64 new_token encode_token encode_to_string put lookup new
    Store.buffer_locked
wait-Quieted_example =
    wait-Quieted codec still_request called_on
      (wait codec still_request called_on (quiet_round [] ∷ [])).0 (quiet_round [] ∷ []) still refl
      refl still_matched

abbrev pub half_printed : Round
half_printed = record (quiet_round (append_op pane (codes "x__DONE") 5 ∷ [])) { wake = signalled }

pub rounds_fit :
    AllFit two63 (Spec.ensure no_streams pane) (calls_between pane [] (half_printed ∷ []) printed)
unfolding Spec.step Spec.append Spec.ensure bytes_eq
rounds_fit = (tt, (omega arith, (omega arith, tt)))

wait-sentinel_rounds_example :
    Finds codec request instance_name []
      (codes "x__DONE__:t:7\n")
      (wait codec request (new_token codec empty pane 4).0 (half_printed ∷ printed ∷ [])).1
unfolding new appended bytes_eq has_byte strip_ansi_and_cr strip_ansi decimal_from new_token
    apply_all
wait-sentinel_rounds_example =
    wait-sentinel_rounds codec request empty no_streams 4 [] (half_printed ∷ []) printed []
      (codes "x") (codes "7") (codes "\n") empty-Tracks instance_plain pane_plain (omega arith)
      unbound refl refl (tt, tt) tt rounds_fit (omega arith) refl (refl, tt) refl refl (omega arith)

-- A number that comes in two parts is reported by its first part.
torn :
    match_sentinel (codes "__DONE__:t:1") (codes "t")
    ≡ some (record { matched = codes "__DONE__:t:1"; exit_code = 1; end = 12 })
unfolding match_sentinel match_from index has_prefix take_digits atoi decimal_from
torn = refl

abbrev known : Store
known = (new_token codec empty pane 4).0

pending_still :
    wait codec request known (half_printed ∷ [])
    ≡ ((wait codec request known (half_printed ∷ [])).0, continues)
unfolding wait loop round deferred validate validate_mode validate_sentinel_token leb64 ltb64
    has_byte new_token encode_token encode_to_string put lookup new Store.buffer_locked apply_all
    Store.read Store.has_pane watch evaluate bytes_eq insert decode_token decode_string get
    Buffer.read Buffer.append Buffer.advance Buffer.drop_excess sub64 add64 match_sentinel
    match_from index has_prefix woken strip_ansi_and_cr strip_ansi Buffer.read_ring rem64
    Buffer.write_ring copy_at
pending_still = refl

wait-pending_example :
    find 0
      (apply_all codec
        (wait codec request known (half_printed ∷ [])).0
        (append_op pane (codes "x") 7 ∷ [])).watchers
    ≡ some (record { key = 0; pane = pane; pending = true })
unfolding new new_token Store.buffer_locked watch touched bytes_eq lookup
wait-pending_example =
    wait-pending codec request known (wait codec request known (half_printed ∷ [])).0
      (half_printed ∷ []) (append_op pane (codes "x") 7 ∷ []) (omega arith) unbound pending_still
      ((tt, tt, tt, tt), tt) tt

wait_bounded_example :
    (is_done (wait codec request known (half_printed ∷ quiet_round [] ∷ printed ∷ [])).1 ≡ true)
    × (wait codec request known (half_printed ∷ quiet_round [] ∷ printed ∷ [])
        ≡ wait codec request known (half_printed ∷ quiet_round [] ∷ []))
wait_bounded_example =
    wait_bounded codec request known (half_printed ∷ []) (quiet_round []) (printed ∷ []) tt
