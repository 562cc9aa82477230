-- ===== src/Phones/Hub/Examples.antt =====
-- hub.rs at concrete hubs: one phone connected, perhaps with a command that waits.
use dial_f.Prelude.{ℕ, ◌+◌, ◌≤◌, ◌≡◌, ◌≢◌, refl, inr, true, false, none, some, [], arith}
use dial_f.Prelude.Assoc.{lookup, erase, insert}
use dial_f.Prelude.Outcome.{ok}
use dial_f.Prelude.Text.{Text, bytes, text_eq}
use dial_f.Protocol.{hangup, kind_of}
use dial_f.Phones.Hub.{Conn, Hub, new_hub, register, opened, find_conn, resolve_ack, unregister}
use dial_f.Phones.Hub.Sending.{command, next_cmd_id, post_ack}
use dial_f.Phones.Hub.Waiting.{answered, pending}
use dial_f.Phones.Hub.Answers.{Reachable, at_start, after, registers, posts, Reachable-answered}
use dial_f.Phones.Hub.Commands.{reported, command-resolve_ack}
use dial_f.Phones.Hub.Current.{nothing, unregisters, register-unregister}

abbrev pixel : Text
pixel = bytes "pixel"

abbrev one_phone : Hub
one_phone = (register pixel new_hub).1

one_phone-Reachable : Reachable one_phone
one_phone-Reachable = after (registers pixel) at_start

abbrev first_conn : Conn
first_conn = record { gen = 1; queue = []; open_end = true; acks = [] }

first_at : lookup pixel one_phone.conns ≡ some 1
unfolding register opened lookup insert erase bytes text_eq
first_at = refl

first_there : find_conn 1 one_phone.store ≡ some first_conn
unfolding register opened find_conn lookup
first_there = refl

command-resolve_ack_example :
    (command pixel (hangup none) (resolve_ack pixel (next_cmd_id one_phone).0 (ok tt)) one_phone).0
    ≡ reported (kind_of (hangup none)) pixel (ok tt)
command-resolve_ack_example =
    command-resolve_ack pixel (hangup none) one_phone first_at first_there refl (ok tt)
      one_phone-Reachable

Reachable-answered_example :
    answered 0 (post_ack 1 (bytes "c-1") one_phone).1.replies
      + pending 0 (post_ack 1 (bytes "c-1") one_phone).1.store
    ≤ 1
Reachable-answered_example =
    Reachable-answered 0 (after (posts 1 (bytes "c-1")) one_phone-Reachable)

second_gen : (register pixel one_phone).0 ≡ 2
unfolding register opened lookup insert erase bytes text_eq
second_gen = refl

-- A second socket of the same phone, and then the first one's late teardown.
register-unregister_example :
    ((k : ℕ)
      → k ≢ (register pixel one_phone).0
      → unregister pixel k (unregister pixel 1 (register pixel one_phone).1).1
        ≡ (false, (unregister pixel 1 (register pixel one_phone).1).1))
    × ((unregister pixel
          (register pixel one_phone).0
          (unregister pixel 1 (register pixel one_phone).1).1).0
        ≡ true)
    × (lookup pixel
          (unregister pixel
            (register pixel one_phone).0
            (unregister pixel 1 (register pixel one_phone).1).1).1.conns
        ≡ none)
    × ((e : Text)
        → e ≢ pixel
        → lookup e
            (unregister pixel
              (register pixel one_phone).0
              (unregister pixel 1 (register pixel one_phone).1).1).1.conns
          ≡ lookup e (unregister pixel 1 (register pixel one_phone).1).1.conns)
register-unregister_example =
    register-unregister pixel one_phone
      (unregisters pixel 1 (inr (λ e. omega (arith, second_gen))) nothing)
