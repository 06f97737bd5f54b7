-- ===== src/Tests/Signals.antt =====
-- Small worlds of signals.
use librtcbase.Prelude.{
  ℕ, ◌≤◌, ◌<◌, Bool, true, false, Option, none, some, List, [], ◌∷◌, ◌≡◌, refl, arith,
}
use librtcbase.Sigslot.{
  Connection, World, contains, connect, disconnect_all, erase_first, disconnect, no_connections,
  slots_disconnect_all, begin_emit, emit_turn, emit_loop, emit,
}
use librtcbase.Sigslot.Actions.{
  Action, act_disconnect, act_disconnect_all, act_slots_disconnect_all, act_copy_slots,
  act_begin_emit, act_emit_turn, act, act_all, IsSound, IsSoundResult, connect-IsSound,
  disconnect_all-IsSound, act-IsSound, act_all-IsSound,
}
use librtcbase.Sigslot.Links.{has_dest, IsLinked, connect-IsLinked, slots_disconnect_all-silent}
use librtcbase.Sigslot.Copies.{IsAllowed, IsLinkedResult, act-IsLinked}
use librtcbase.Sigslot.Emission.{emit-calls, left, emit_loop_ends, left-disconnect_all}

abbrev empty_world : World
empty_world = record { signals = λ x. no_connections; senders = λ x. [] }

empty-IsSound : IsSound empty_world
empty-IsSound sender = refl

empty-IsLinked : IsLinked empty_world
empty-IsLinked sender slot = refl

-- Object 5 has two methods of signal 0, object 6 one.
abbrev busy_world : World
busy_world = connect 0 5 3 (connect 0 6 2 (connect 0 5 1 empty_world))

busy-IsSound : IsSound busy_world
busy-IsSound = connect-IsSound 0 5 3 (connect 0 6 2 (connect 0 5 1 empty_world)) (
    connect-IsSound 0 6 2 (connect 0 5 1 empty_world)
      (connect-IsSound 0 5 1 empty_world empty-IsSound))

busy-IsLinked : IsLinked busy_world
busy-IsLinked = connect-IsLinked 0 5 3 (connect 0 6 2 (connect 0 5 1 empty_world)) (
    connect-IsLinked 0 6 2 (connect 0 5 1 empty_world)
      (connect-IsLinked 0 5 1 empty_world empty-IsLinked))

abbrev methods : List Connection → List ℕ
methods [] = []
methods (c ∷ cs) = c.method ∷ methods cs

abbrev methods_of : Option (List Connection × World) → Option (List ℕ)
methods_of none = none
methods_of (some (cs, w)) = some (methods cs)

-- What is called when nothing changes, and when object 6 disconnects itself and object 5.
quiet_emission : methods_of (emit 4 0 (λ c w. w) busy_world) ≡ some (1 ∷ 2 ∷ 3 ∷ [])
unfolding emit emit_loop begin_emit emit_turn connect
quiet_emission = refl

cut_emission : methods_of (emit 4 0 (λ c w. disconnect 0 6 w) busy_world) ≡ some (1 ∷ 3 ∷ [])
unfolding emit emit_loop begin_emit emit_turn connect disconnect erase_first
cut_emission = refl

-- A disconnect with two connections: object 5 still has a connection and no sender.
double_disconnect :
    ◌≡◌ {A = Bool × Bool}
      (let w = disconnect 0 5 busy_world in
        (contains 0 (w.senders 5), has_dest 5 (w.signals 0).connected_slots))
      (false, true)
unfolding disconnect erase_first connect
double_disconnect = refl

abbrev tangled : List Action
tangled =
    act_begin_emit 0
    ∷ act_emit_turn 0
    ∷ act_disconnect 0 6
    ∷ act_slots_disconnect_all 5
    ∷ act_emit_turn 0
    ∷ act_copy_slots 7 6
    ∷ act_disconnect_all 0
    ∷ []

act_all-IsSound_example : IsSoundResult (act_all tangled busy_world)
act_all-IsSound_example = act_all-IsSound tangled busy_world busy-IsSound

only_6 : IsAllowed (act_disconnect 0 6) busy_world
unfolding connect erase_first
only_6 = refl

act-IsLinked_example : IsLinkedResult (act (act_disconnect 0 6) busy_world)
act-IsLinked_example = act-IsLinked (act_disconnect 0 6) busy_world only_6 busy-IsLinked

slots_disconnect_all-silent_example :
    (w' : World) × ((slots_disconnect_all 5 busy_world ≡ some w')
      × (IsLinked w' × ((sender : ℕ) → has_dest 5 (w'.signals sender).connected_slots ≡ false)))
slots_disconnect_all-silent_example = slots_disconnect_all-silent 5 busy_world busy-IsLinked

abbrev nothing : Connection → World → World
nothing c w = w

abbrev cut : Connection → World → World
cut c w = disconnect_all 0 w

cut-shrinks :
    (c : Connection) (w : World) → IsSound w → IsSound (cut c w) × (left 0 (cut c w) ≤ left 0 w)
cut-shrinks c w h = (disconnect_all-IsSound 0 w h, rw (left-disconnect_all 0 w) (omega arith))

emit-calls_example :
    (w' : World) × (emit 4 0 nothing busy_world ≡ some ((busy_world.signals 0).connected_slots, w'))
unfolding connect
emit-calls_example = emit-calls 0 nothing busy_world (λ c w. refl) (busy-IsSound 0)

started-IsSound : IsSound (begin_emit 0 busy_world)
unfolding act
started-IsSound = act-IsSound (act_begin_emit 0) busy_world busy-IsSound

started-left : left 0 (begin_emit 0 busy_world) < 4
unfolding begin_emit connect
started-left = omega arith

emit_loop_ends_example :
    (r : List Connection × World) × (emit_loop 4 0 cut (begin_emit 0 busy_world) ≡ some r)
emit_loop_ends_example =
    emit_loop_ends 4 0 cut cut-shrinks (begin_emit 0 busy_world) started-IsSound started-left
