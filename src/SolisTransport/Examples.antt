-- ===== src/SolisTransport/Examples.antt =====
-- A read and a write are asked for; the write goes first.
use ha_spark.Prelude.{ℕ, ◌<◌, ◌*◌, ◌≡◌, refl, none, some, List, [], ◌∷◌, count, arith, ◌==◌, true}
use ha_spark.Authority.{second}
use ha_spark.SolisTransport.{
  reply, Step, step_input, step_write, step_start, step_begin, step_finish, Request, input, write,
  Outcome, new_transport, run, close, take_next, first_write, exchange, start_read, start_write,
  start, connect, step, begin, finish,
}
use ha_spark.SolisTransport.Wire.{WireOk, run-WireOk}
use ha_spark.SolisTransport.Done.{close_answers_once}
use ha_spark.SolisTransport.Next.{IsNext, take_next-IsNext, IsReply, exchange-IsReply}

abbrev steps : List Step
steps =
    step_start true
    ∷ step_input 33132 1 1
    ∷ step_write 43117 (200 ∷ []) 1
    ∷ step_begin (5 * second)
    ∷ step_finish (reply 16 43117 1 []) (6 * second)
    ∷ step_begin (7 * second)
    ∷ []

run-WireOk_example : WireOk (run steps new_transport).wire
run-WireOk_example = run-WireOk steps

two_made : 1 < (run steps new_transport).next
unfolding run step start connect start_read start_write begin take_next first_write finish exchange
two_made = omega arith

close_answers_once_example :
    count (λ (d : ℕ × Outcome). d.0 == 1) (close (run steps new_transport)).done ≡ 1
close_answers_once_example = close_answers_once steps 1 two_made

abbrev a_read : Request
a_read = record {
  sequence = 0;
  op = input;
  address = 33132;
  size = 1;
  values = [];
  device_id = 1;
  connection = 1;
}

abbrev a_write : Request
a_write = record {
  sequence = 1;
  op = write;
  address = 43117;
  size = 1;
  values = 200 ∷ [];
  device_id = 1;
  connection = 1;
}

write_first : take_next (a_read ∷ a_write ∷ []) ≡ some (a_write, a_read ∷ [])
unfolding take_next first_write
write_first = refl

take_next-IsNext_example : IsNext (a_read ∷ a_write ∷ []) a_write (a_read ∷ [])
take_next-IsNext_example =
    take_next-IsNext (a_read ∷ a_write ∷ []) a_write (a_read ∷ []) write_first

answers_read : (exchange a_read (reply 4 33132 1 (32 ∷ []))).error ≡ none
unfolding exchange
answers_read = refl

exchange-IsReply_example :
    IsReply a_read
      (reply 4 33132 1 (32 ∷ []))
      (exchange a_read (reply 4 33132 1 (32 ∷ []))).registers
exchange-IsReply_example = exchange-IsReply a_read (reply 4 33132 1 (32 ∷ [])) answers_read
