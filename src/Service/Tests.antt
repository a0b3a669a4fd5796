-- ===== src/Service/Tests.antt =====
-- The theorems on grpcdemo/service_impl.cc at concrete requests.
use cpp_demo.Prelude.{◌≡◌, ◌≢◌, true, false, ◌++◌, codes, replicate, ◌==◌, not}
use cpp_demo.Service.{HelloRequest, quoted_name, say_hello, say_hello2, say_hello2_writes}

abbrev tony : HelloRequest
tony = record { name = codes "tony"; double_quote = true }

abbrev tang : HelloRequest
tang = record { name = codes "tang"; double_quote = false }

-- The second write fails.
say_hello2_writes_example :
    (say_hello2 (λ i. not (i == 1)) tony ≡ replicate 2 (codes "hello" ++ quoted_name tony))
    × (codes "hello" ++ quoted_name tony ≢ say_hello tony)
say_hello2_writes_example = say_hello2_writes (λ i. not (i == 1)) tony
