-- ===== src/Examples/Routing.antt =====
-- The theorems on the router, at a router over the store in memory.
use openjarvis.Base.{
  List, some, [], ◌∷◌, ◌++◌, ◌≡◌, ◌≤◌, ◌+◌, refl, inl, true, txt, ok, length, text_eq, arith,
}
use openjarvis.Base.Dict
use openjarvis.Session.{ThreadLocator, locator_eq}
use openjarvis.Session.Memory.{MemoryState, memory_store}
use openjarvis.Router.{Router, Draws, request_completed}
use openjarvis.Router.Pending.{queue_of}
use openjarvis.Router.Incoming.{LoopEvent, handle_incoming, run_until_shutdown}
use openjarvis.Router.Incoming.Duplicates.{redelivery_ignored}
use openjarvis.Router.Flight.{of_thread, stream, WaitsBehind}
use openjarvis.Router.Flight.Drain.{completions, all_delivered}
use openjarvis.Router.Flight.Order.{
  Traffic, arrives, completes, arrived, completed, run, delivered_in_order,
}
use openjarvis.Router.Flight.Single.{in_flight_count, sent_count, single_flight}
use openjarvis.Examples.{uuids, locator, incoming, manager}

abbrev router : Router MemoryState
router = record {
  agent_tx = record { is_open = true; sent = [] };
  channels = (txt "feishu", record { is_open = true; sent = [] }) ∷ [];
  sessions = manager;
  commands = [];
  message_dedup_enabled = true;
  seen_messages = [];
  pending_threads = [];
  queued_messages = [];
}

abbrev draws : Draws
draws = record { session_id = 1; message_id = λ n. n; now = 15 }

nothing_waits : WaitsBehind router
unfolding WaitsBehind queue_of Dict.get
nothing_waits l = inl refl

abbrev other : ThreadLocator
other = record locator { external_thread_id = txt "work"; thread_id = 3 }

abbrev traffic : List Traffic
traffic =
    arrives locator incoming
    ∷ arrives locator (record incoming { content = txt "more" })
    ∷ arrives other incoming
    ∷ completes locator
    ∷ []

delivered_in_order_example :
    stream locator (run traffic router) ≡ stream locator router ++ arrived locator traffic
delivered_in_order_example = delivered_in_order traffic locator router refl nothing_waits

single_flight_example :
    sent_count locator (run traffic router) + in_flight_count locator router
    ≤ sent_count locator router
      + in_flight_count locator (run traffic router)
      + completed locator traffic
single_flight_example = single_flight traffic locator router refl nothing_waits

-- Another message arrives in between, and the agent completes the first.
abbrev meanwhile : List (Draws × LoopEvent)
meanwhile =
    (draws, LoopEvent.incoming (record incoming { id = 23; external_message_id = some (txt "m2") }))
    ∷ (draws, LoopEvent.agent (request_completed locator 12))
    ∷ []

redelivery_ignored_example :
    let after = (handle_incoming uuids (memory_store uuids) draws incoming router).1 in
    let later = (run_until_shutdown uuids (memory_store uuids) meanwhile after).1 in
    handle_incoming uuids (memory_store uuids) draws (record incoming { id = 22 }) later
    ≡ (ok tt, later)
redelivery_ignored_example =
    redelivery_ignored uuids (memory_store uuids) draws draws incoming (record incoming { id = 22 })
      (txt "m1") meanwhile router refl refl refl

abbrev waiting : Router MemoryState
waiting = record router {
  pending_threads = locator ∷ [];
  queued_messages = (locator, incoming ∷ record incoming { content = txt "more" } ∷ []) ∷ [];
}

two_wait : length (queue_of locator waiting) ≤ 2
unfolding queue_of Dict.get locator_eq text_eq
two_wait = omega arith

all_delivered_example :
    (of_thread locator (run (completions 2 locator) waiting).agent_tx.sent ≡ stream locator waiting)
    × (queue_of locator (run (completions 2 locator) waiting) ≡ [])
all_delivered_example = all_delivered 2 locator waiting refl two_wait
