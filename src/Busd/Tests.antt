-- ===== src/Busd/Tests.antt =====
-- Tests of the model of services/bb-busd.c, and its theorems at concrete tables.
use nxp_imx95_building_block.Common.{
  ℕ, zero, suc, ◌≤◌, ◌≡◌, refl, ◌≢◌, inr, true, false, none, some, List, [], ◌∷◌, ◌++◌, arith,
  get_elem?, replicate, All, Bytes, codes, str_eq, starts_with, skip_space, token, after_char,
}
use nxp_imx95_building_block.Framing.{lines, then_lines, lines-append}
use nxp_imx95_building_block.Busd.{
  Client, Sub, Action, send, close, find_sub, topic_match, pub_line, publish, subscribe,
  unsubscribe, contains, handle_line, handle_lines, remove_subs, send_all, modify, add_client,
  remove_first, bring_last,
}
use nxp_imx95_building_block.Busd.Ids.{count}
use nxp_imx95_building_block.Busd.Subscribe.{ids_of, subscribe_lem, unsubscribe_lem}
use nxp_imx95_building_block.Busd.Deliver.{sent_to, matches, publish_lem}
use nxp_imx95_building_block.Busd.Remove.{remove_subs_lem}
use nxp_imx95_building_block.Busd.Bounds.{IsTable, handle_line-IsTable}
use nxp_imx95_building_block.Busd.Events.{
  Daemon, Event, without, remove_client, read_client, handle_event,
}
use nxp_imx95_building_block.Busd.Events.Invariant.{IsDaemon, IsBuffered}
use nxp_imx95_building_block.Busd.Events.Total.{handle_event_lem}
use nxp_imx95_building_block.Busd.Events.Chunks.{fed, left_by, read_client_chunks}
use nxp_imx95_building_block.Busd.Events.Stale.{word_of, then_hang_up, remove_client_stale}

-- Clients 5 and 6 subscribe to "t", client 6 also to every topic.
abbrev table : List Sub
table =
    record { topic = codes "t"; client_ids = 5 ∷ 6 ∷ [] }
    ∷ record { topic = codes "#"; client_ids = 6 ∷ [] }
    ∷ []

at_most_once : (c a b : ℕ) → a ≢ b → count c (a ∷ b ∷ []) ≤ 1
unfolding count
at_most_once c a b h = ground arith

at_most_once_single : (c a : ℕ) → count c (a ∷ []) ≤ 1
unfolding count
at_most_once_single c a = ground arith

table-IsTable : IsTable table
table-IsTable = record {
  few = omega arith;
  entries = (
    record {
      short = omega arith;
      fits = omega arith;
      single = λ c. at_most_once c 5 6 (omega arith);
    },
    (record { short = omega arith; fits = omega arith; single = λ c. at_most_once_single c 6 }, tt),
  );
}

pub_reaches_others :
    (handle_line table 5 (codes "PUB t hi")).1
    ≡ send 6 (pub_line (codes "t") (codes "hi")) ∷ send 6 (pub_line (codes "t") (codes "hi")) ∷ []
unfolding handle_line publish starts_with skip_space token after_char send_all topic_match str_eq
pub_reaches_others = refl

sub_then_unsub : (handle_lines table 7 (codes "SUB t" ∷ codes "UNSUB t" ∷ [])).0 ≡ table
unfolding handle_lines subscribe unsubscribe starts_with skip_space token str_eq find_sub modify
    add_client contains remove_first bring_last
sub_then_unsub = refl

ping_answers : (handle_line [] 7 (codes "PING")).1 ≡ send 7 (codes "PONG" ++ 10 ∷ []) ∷ []
unfolding handle_line starts_with str_eq
ping_answers = refl

publish_lem_example :
    sent_to 6 (publish table (codes "t") (codes "hi") 5)
    ≡ pub_line (codes "t") (codes "hi") ∷ pub_line (codes "t") (codes "hi") ∷ []
unfolding matches count topic_match str_eq starts_with
publish_lem_example = publish_lem 6 table (codes "t") (codes "hi") 5

subscribe_lem_example : count 7 (ids_of (subscribe table (codes "t") 7) (codes "t")) ≡ 1
unfolding str_eq contains ids_of find_sub
subscribe_lem_example = subscribe_lem table (codes "t") (codes "t") 7 7 (omega arith)

unsubscribe_lem_example : count 5 (ids_of (unsubscribe table (codes "t") 5) (codes "t")) ≡ 0
unfolding str_eq count ids_of
unsubscribe_lem_example = unsubscribe_lem table (codes "t") (codes "t") 5 5

remove_subs_lem_example : matches 6 (codes "t") (remove_subs 6 table) ≡ 0
remove_subs_lem_example = remove_subs_lem 6 6 (codes "t") table

handle_line-IsTable_example : IsTable (handle_line table 7 (codes "SUB t")).0
handle_line-IsTable_example = handle_line-IsTable table 7 (codes "SUB t") table-IsTable

long_topic : Bytes
long_topic = replicate 130 b'a'

lines-append_example :
    lines (codes "PI" ++ (codes "NG" ++ 10 ∷ []))
    ≡ then_lines (lines (codes "PI")) (codes "NG" ++ 10 ∷ [])
lines-append_example = lines-append (codes "PI") (codes "NG" ++ 10 ∷ [])

-- Two clients, 5 and 6, behind the listening socket 3.
abbrev idle_client : ℕ → Client
idle_client fd = record { fd = fd; buf = [] }

abbrev daemon : Daemon
daemon = record {
  srv = 3;
  clients = idle_client 5 ∷ idle_client 6 ∷ replicate 62 (idle_client 0);
  num_clients = 2;
  subs = table;
  registered = (5, 0) ∷ (6, 1) ∷ [];
}

idle-All : (n : ℕ) → All IsBuffered (replicate n (idle_client 0))
idle-All zero = tt
idle-All (suc n) = (omega arith, idle-All n)

daemon-IsDaemon : IsDaemon daemon
daemon-IsDaemon = record {
  slots = refl;
  few = omega arith;
  table = table-IsTable;
  buffers = (omega arith, (omega arith, idle-All 62));
}

abbrev ping_event : Event
ping_event = record {
  word = 1;
  readable = true;
  hung_up = true;
  accepted = none;
  received = some (codes "PING" ++ 10 ∷ []);
}

handle_event_lem_example :
    (r : Daemon × List Action) × (handle_event daemon ping_event ≡ some r) × IsDaemon r.0
handle_event_lem_example = handle_event_lem daemon ping_event daemon-IsDaemon (inr (omega arith))

read_client_chunks_example :
    let one = fed daemon 1 (idle_client 6) (codes "PI") in
    let c' = left_by (idle_client 6) (codes "PI") in
    let two = fed one.0 1 c' (codes "NG" ++ 10 ∷ []) in
    (read_client daemon 1 (idle_client 6) (some (codes "PI")) ≡ some (one.0, one.1, false))
    × (get_elem? one.0.clients 1 ≡ some c')
    × (read_client one.0 1 c' (some (codes "NG" ++ 10 ∷ [])) ≡ some (two.0, two.1, false))
    × (read_client daemon 1 (idle_client 6) (some (codes "PI" ++ (codes "NG" ++ 10 ∷ [])))
        ≡ some (two.0, one.1 ++ two.1, false))
read_client_chunks_example =
    read_client_chunks daemon 1 (idle_client 6) (codes "PI") (codes "NG" ++ 10 ∷ []) (λ e. cc)
      (λ e. cc) (omega arith) refl

-- Three clients, in the order of their numbers.
abbrev three_clients : Daemon
three_clients = record daemon {
  clients = idle_client 5 ∷ idle_client 6 ∷ idle_client 7 ∷ replicate 61 (idle_client 0);
  num_clients = 3;
  registered = (5, 0) ∷ (6, 1) ∷ (7, 2) ∷ [];
}

remove_client_stale_example :
    let d = without three_clients 0 (idle_client 5) in
    (remove_client three_clients 0 ≡ some (d, close 5 ∷ []))
    × (get_elem? d.clients 0 ≡ some (idle_client 6))
    × (word_of 6 d.registered ≡ some 1)
    × (handle_event d ping_event
        ≡ then_hang_up 1 true (read_client d 1 (idle_client 7) (some (codes "PING" ++ 10 ∷ []))))
unfolding word_of
remove_client_stale_example =
    remove_client_stale three_clients 0 0 (idle_client 5) (idle_client 6) (idle_client 7) ping_event
      (omega arith) (omega arith) (omega arith) refl refl refl (omega arith) refl refl (omega arith)
      refl

-- A third client has come since.
abbrev busy_daemon : Daemon
busy_daemon = record daemon { num_clients = 3; registered = (5, 0) ∷ (6, 1) ∷ (7, 2) ∷ [] }

abbrev lost_event : Event
lost_event = record ping_event { word = 3; hung_up = false }
