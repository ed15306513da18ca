-- ===== src/Tests/Reactors.antt =====
-- Runs of tendermint/mempool/reactor.go and tendermint/wendy/reactor.go.
use wendy.Common.{
  find, rejected, ◌<◌, ◌^◌, ◌≡◌, ◌⊎◌, inl, inr, refl, true, [], ◌∷◌, none, some, Option, arith,
  returns, panics, ℕ_discrete, ◌>>=◌, if◌then◌else◌, ltb, accepted,
}
use wendy.Crypto.{Bytes, bytes_dec}
use wendy.Mempool.{Mempool, CheckTxResponse}
use wendy.Mempool.Checks.{check_tx}
use wendy.Mempool.Updates.{recheck_txs}
use wendy.Mempool.Updates.Recheck.{recheck_run, passes, recheck_run-accepted}
use wendy.Mempool.Reactor.{
  at_tx, Routine, Reactor, Sum, message_txs, at_start, behind_tx, new_reactor, receive,
  broadcast_step, broadcast_run, has_sender,
}
use wendy.Mempool.Reactor.Broadcast.{
  Sends, messages, rounds_for, good, broadcast_step-Sends, broadcast_run_lem,
}
use wendy.Mempool.Reactor.Senders.{senders_of}
use wendy.Mempool.Reactor.Echo.{check_tx-Quiet}
use wendy.Mempool.Reactor.Receiving.{admits}
use wendy.Mempool.Reactor.Asking.{asked_of, admitted}
use wendy.Mempool.Cache.{tx_key}
use wendy.Mempool.Cache.Lru.{lru_push, same_key}
use wendy.Mempool.Checks.Bounds.{total_bytes}
use wendy.VoteReactor as Votes
use wendy.VoteReactor.Sequences.{HasNumbers, made_count, Reach-HasNumbers}
use wendy.VoteReactor.Reception.{Accepted, Fatal, receive-Fatal}
use wendy.Tests.Elements.{Item, TestList, test_list, test_list-Laws}
use wendy.Tests.Mempools.{sum256, item, mempool}

-- In place of the codec: a message of one transaction.
abbrev unmarshal : Bytes → Bytes ⊎ Sum
unmarshal bz = inr (message_txs (bz ∷ []))

abbrev reactor : Reactor TestList Item
reactor = new_reactor true mempool

-- Of three transactions, the second one a copy of the first, two are asked about.
asked_twice :
    (asked_of sum256
      (admits sum256 test_list test_list-Laws
        (λ n. none)
        (λ n. none)
        (record mempool { config = record mempool.config { size = 3 } }))
      (some 2)
      0
      ((9 ∷ []) ∷ (9 ∷ []) ∷ (8 ∷ []) ∷ [])
      []).0
    ≡ (9 ∷ []) ∷ (8 ∷ []) ∷ []
unfolding asked_of admitted lru_push same_key bytes_dec ℕ_discrete total_bytes test_list-Laws tx_key
    find rejected
asked_twice = refl

abbrev marshal : Bytes → Option Bytes
marshal tx = some (8 ∷ tx)

broadcast_step-Sends_example :
    Sends marshal test_list 3 (good 1) mempool at_start (behind_tx (item 0), (8 ∷ 0 ∷ 0 ∷ []) ∷ [])
unfolding broadcast_step ℕ_discrete
broadcast_step-Sends_example =
    broadcast_step-Sends marshal test_list 3 (good 1) mempool at_start
      (behind_tx (item 0), (8 ∷ 0 ∷ 0 ∷ []) ∷ []) refl

broadcast_run_lem_example :
    broadcast_run marshal test_list 3 (rounds_for 1 (item 1 ∷ [])) mempool at_start
    ≡ returns (
      behind_tx (item 1),
      messages marshal test_list 3 mempool (λ tx. 8 ∷ tx) (item 0 ∷ item 1 ∷ []),
    )
unfolding test_list-Laws
broadcast_run_lem_example =
    broadcast_run_lem marshal test_list 3 (λ tx. 8 ∷ tx) (λ tx. refl) test_list-Laws mempool 1
      (item 0) (item 1 ∷ []) refl (omega arith)

-- Peer 3 sent the first transaction.
abbrev sent_by_3 : Mempool TestList Item
sent_by_3 = record mempool { senders = (item 0, 3 ∷ []) ∷ [] }

sent : has_sender 3 (senders_of sum256 test_list sent_by_3 (item 0)) ≡ true
unfolding ℕ_discrete
sent = grind arith

check_tx-Quiet_example :
    let mem = (check_tx sum256 test_list (9 ∷ []) 3 none none sent_by_3).0 in
    (at : Routine Item) × (broadcast_step marshal test_list 3 (good 1) mem (at_tx (item 0))
      ≡ returns (at, []))
check_tx-Quiet_example =
    check_tx-Quiet sum256 test_list marshal 3 (9 ∷ []) none none sent_by_3 (item 0) (good 1)
      (inr sent)

abbrev bad_second : Item → CheckTxResponse
bad_second e = record { code = if ltb e.id 1 then 0 else 5; gas_wanted = 1 }

recheck_run-accepted_example :
    (mem : Mempool TestList Item) × ((do
      rechecked ← recheck_txs sum256 test_list mempool
      recheck_run sum256 test_list bad_second (item 0 ∷ item 1 ∷ []) rechecked)
      ≡ returns mem)
    × (mem.txs.items.elements
        ≡ accepted (passes sum256 test_list bad_second none) (item 0 ∷ item 1 ∷ []))
    × (mem.recheck_cursor ≡ none)
unfolding test_list-Laws
recheck_run-accepted_example =
    recheck_run-accepted sum256 test_list bad_second test_list-Laws mempool (item 0) (item 1 ∷ [])
      refl

receive-Fatal_example :
    (Accepted (λ bz. none) (1 ∷ []) (2 ∷ [])
      × (Votes.receive (λ bz. none) (1 ∷ []) (2 ∷ []) ≡ returns tt))
    ⊎ (Fatal (λ bz. none) (1 ∷ []) (2 ∷ [])
        × (Votes.receive (λ bz. none) (1 ∷ []) (2 ∷ []) ≡ panics))
receive-Fatal_example = receive-Fatal (λ bz. none) (1 ∷ []) (2 ∷ [])

abbrev id : Bytes
id = 1 ∷ 2 ∷ 3 ∷ 4 ∷ []

abbrev encode_vote : Votes.Vote → Option Bytes
encode_vote v = some (v.sequence ∷ v.tx_hash)

-- Two transactions come in, and the routines of two peers take one each.
abbrev two_waiting : Votes.Reactor
two_waiting = Votes.on_new_tx (6 ∷ []) (
    Votes.on_new_tx (5 ∷ [])
      (Votes.add_peer (9 ∷ id) (Votes.add_peer (8 ∷ id) (Votes.new_reactor id))))

abbrev one_taken : Votes.Reactor
one_taken = Votes.take_tx (λ tx. tx) 0 (8 ∷ id) [] (5 ∷ []) ((6 ∷ []) ∷ []) two_waiting

abbrev both_taken : Votes.Reactor
both_taken = Votes.take_tx (λ tx. tx) 1 (9 ∷ id) [] (6 ∷ []) [] one_taken

both_taken-Reach : Votes.Reach (λ tx. tx) encode_vote (Votes.new_reactor id) both_taken
unfolding Votes.take_tx Votes.on_new_tx Votes.add_peer Votes.new_reactor
both_taken-Reach =
    Votes.Reach.later
      (Votes.Reach.later
        (Votes.Reach.later
          (Votes.Reach.later
            (Votes.Reach.later
              (Votes.Reach.later Votes.Reach.start (Votes.Step.peer_added (8 ∷ id)))
              (Votes.Step.peer_added (9 ∷ id)))
            (Votes.Step.new_tx (5 ∷ [])))
          (Votes.Step.new_tx (6 ∷ [])))
        (Votes.Step.tx_taken 0 (8 ∷ id) [] (5 ∷ []) ((6 ∷ []) ∷ []) (inl refl) refl))
      (Votes.Step.tx_taken 1 (9 ∷ id) [] (6 ∷ []) [] (inr (inl refl)) refl)

both_taken_small : made_count both_taken < 2 ^ 64
unfolding Votes.take_tx Votes.on_new_tx Votes.add_peer Votes.new_reactor
both_taken_small = omega arith

Reach-HasNumbers_example : HasNumbers both_taken
Reach-HasNumbers_example =
    Reach-HasNumbers (λ tx. tx) encode_vote id both_taken-Reach both_taken_small
