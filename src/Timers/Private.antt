-- ===== src/Timers/Private.antt =====
-- What a private message may do to a hub, and the round trip of Ping.
use target_facade.Base.{
  ℕ, ◌+◌, ◌-◌, ◌%◌, ◌^◌, ◌≤◌, ◌<◌, ◌≡◌, refl, Bool, true, false, List, none, some, arith,
  Option-cases, inl, inr,
}
use target_facade.Base.Text.{WString, equal, is_empty}
use target_facade.Base.Table.{row, put, row-put, row-remove}
use target_facade.Status.{s_ok, e_timeout, failed}
use target_facade.Timers.{
  PingRow, Plumbing, Machine, PrivateTopic, ping_topic, pong_topic, Effect, no_effect, echo,
  release, on_pong, handle_private, register_ping, collect_ping, next_id, PingCourse, ping,
  number_of,
}

-- what a message that is not the hub's own may ask for
abbrev pub is_answer : Effect → Bool
is_answer no_effect = true
is_answer (echo peer body) = true
is_answer (release id) = true
is_answer _ = false

on_pong-timers :
    (id now : ℕ) (t : Plumbing)
    → ((on_pong id now t).1.timers ≡ t.timers) × (is_answer (on_pong id now t).0 ≡ true)
unfolding on_pong
on_pong-timers id now t = (ground arith, ground arith)

-- A private message from any other address than the hub's own neither sets, arms nor kills a timer of
-- the hub, nor has it call OnPost, whatever its topic and its body.
handle_private-foreign :
    (address : WString) (topic : PrivateTopic) (source : WString) (body : List ℕ) (ext : Bool)
    (m : Machine) (t : Plumbing)
    → equal source address ≡ false
    → let r = handle_private address topic source body ext m t in
      (r.1.timers ≡ t.timers) × (r.1.next_timer ≡ t.next_timer) × (is_answer r.0 ≡ true)
unfolding handle_private on_pong
handle_private-foreign address ping_topic source body ext m t other = (refl, refl, ground arith)
handle_private-foreign address pong_topic source body ext m t other =
    elim (Option-cases (number_of 4 body)) [
      | inl e ↦ (ground (arith, e), ground (arith, e), ground (arith, e))
      | inr (id, e) ↦ (ground (arith, e), ground (arith, e), ground (arith, e))
    ]
handle_private-foreign address topic source body ext m t other =
    (ground arith, ground arith, ground arith)

-- the answer to a request arrives at `now`, and once more at `again`
abbrev pub answered_twice : ℕ → ℕ → ℕ → Plumbing → Plumbing
answered_twice id now again t = (on_pong id again (on_pong id now t).1).1

-- A round trip of a Ping that is not refused at once. When the answer comes within 2^32 milliseconds,
-- and before the event is set, Ping succeeds and yields the milliseconds from the request to that
-- answer, whenever a second one comes; without an answer, also when something else sets the event, it
-- is a timeout; and its row is gone either way.
pub ping-pong :
    (peer : WString) (timeout now again : ℕ) (c : PingCourse) (t : Plumbing)
    → is_empty peer ≡ false
    → (c.on_pump ≡ false) × (c.event_made ≡ true) × (c.closing ≡ false)
    → failed c.posted ≡ false
    → c.sent ≤ now
    → now < c.sent + 2 ^ 32
    → let id = next_id t.next_ping in
      let answered =
        ping
          (some peer)
          true
          timeout
          (record c { meanwhile = λ b. answered_twice id now again; signalled = λ b. true })
          t in
      let silent = ping (some peer) true timeout (record c { meanwhile = λ b u. u }) t in
      ((answered.0 ≡ s_ok) × (answered.1 ≡ some (now - c.sent)) × (row id answered.2.pings ≡ none))
      × ((silent.0 ≡ e_timeout) × (silent.1 ≡ none) × (row id silent.2.pings ≡ none))
unfolding ping on_pong register_ping collect_ping
ping-pong peer timeout now again c t named free posted before soon =
    let id = next_id t.next_ping in
    let fresh : PingRow = record { sent = c.sent; millisecs = 0; answered = false } in
    let done : PingRow = record {
      sent = c.sent;
      millisecs = (now - c.sent) % 2 ^ 32;
      answered = true;
    } in
    let first = row-put id id fresh t.pings in
    let second = row-put id id done (put id fresh t.pings) in
    let gone = row-remove id id (put id done (put id fresh t.pings)) in
    let unanswered = row-remove id id (put id fresh t.pings) in
    let short : (now - c.sent) % 2 ^ 32 ≡ now - c.sent = omega arith in
    (
      (
        ground (arith, first, second),
        ground (arith, first, second, short),
        ground (arith, first, second, gone),
      ),
      (ground (arith, first), ground (arith, first), ground (arith, first, unanswered)),
    )
