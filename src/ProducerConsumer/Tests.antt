-- ===== src/ProducerConsumer/Tests.antt =====
-- The theorems on misc/producer_consumer.cpp after one produced number.
use cpp_demo.ProducerConsumer.{
  initial, produce, Reach, here, next_step, produces, Inv, thread_Reach-Inv,
}

one_made : Reach initial (produce initial)
one_made = next_step here produces

thread_Reach-Inv_example : Inv (produce initial)
thread_Reach-Inv_example = thread_Reach-Inv one_made
