-- ===== src/Sender/Recver.antt =====
-- OS UNIX+ System V/Message queue/laboratory work #31/src/recver.c: the receiver of the lines.
use sys_prog.Prelude.{ℕ, ◌≡◌, refl, ap, Option, none, some, List, [], ◌∷◌, ◌++◌, map}
use sys_prog.Sender.{Text, pid_text, no_room, line, finish, Msg}

-- What a msgrcv of the receiver gives: a text, a failure after SIGINT, which has set `stop`, or
-- another failure.
pub data Got : Type 0 where
  got : Text → Got
  interrupted : Got
  failed : Got

-- How the receiver ends, after what it has printed: it is not accepted, it waits for a message, or it
-- leaves the loop, with the message that it sends then, if any.
pub data Recver : Type 0 where
  not_accepted : Recver
  still_waits : List Text → Recver
  loop_left : List Text → Option Msg → Recver

unfoldable pub print_first : Text → Recver → Recver
print_first t not_accepted = not_accepted
print_first t (still_waits ts) = still_waits (t ∷ ts)
print_first t (loop_left ts m) = loop_left (t ∷ ts) m

unfoldable pub receive : (my_pid sender_pid : ℕ) → List Got → Recver
receive my sender [] = still_waits []
receive my sender (got finish ∷ gs) = loop_left [] none
receive my sender (got (pid_text p) ∷ gs) = print_first (pid_text p) (receive my sender gs)
receive my sender (got no_room ∷ gs) = print_first no_room (receive my sender gs)
receive my sender (got (line l) ∷ gs) = print_first (line l) (receive my sender gs)
receive my sender (interrupted ∷ gs) =
    loop_left [] (some (record { mtype = sender; mtext = pid_text my }))
receive my sender (failed ∷ gs) = loop_left [] none

-- The answer to the request to join, the pid of the sender or -1, and then the loop.
unfoldable pub recver : (my_pid : ℕ) → (answer : Option ℕ) → List Got → Recver
recver my none gs = not_accepted
recver my (some sender) gs = receive my sender gs

receive-lines :
    (my sender : ℕ) (ls : List ℕ) (gs : List Got) (end : Option Msg)
    → receive my sender gs ≡ loop_left [] end
    → receive my sender (map (λ l. got (line l)) ls ++ gs) ≡ loop_left (map line ls) end
unfolding receive print_first
receive-lines my sender [] gs end h = h
receive-lines my sender (l ∷ ls) gs end h =
    ap (print_first (line l)) (receive-lines my sender ls gs end h)

-- A receiver that is accepted prints the lines that it gets before SIGINT, and then tells the sender
-- its pid; where the finishing message of the sender comes first, it leaves without a word.
pub recver-lines :
    (my sender : ℕ) (ls : List ℕ) (gs : List Got)
    → (recver my (some sender) (map (λ l. got (line l)) ls ++ interrupted ∷ gs)
        ≡ loop_left (map line ls) (some (record { mtype = sender; mtext = pid_text my })))
      × (recver my (some sender) (map (λ l. got (line l)) ls ++ got finish ∷ gs)
          ≡ loop_left (map line ls) none)
unfolding recver receive
recver-lines my sender ls gs = (
  receive-lines my sender ls (interrupted ∷ gs) _ refl,
  receive-lines my sender ls (got finish ∷ gs) _ refl,
)
