-- ===== src/ConsoleClient/Tests.antt =====
-- The theorems on asio/allocation/client.cpp in a short talk.
use cpp_demo.Prelude.{◌≡◌, [], ◌∷◌, codes, take}
use cpp_demo.ConsoleClient.{
  Exchange, turn_of, said, heard, arrived, eof, wrote, read_size, quits_client, quits_server, main,
  main_exchanges,
}

abbrev short_write : Exchange
short_write = record { first = 104; more = 105 ∷ []; taken = 1; answer = codes "got h" }

main_exchanges_example :
    (main
        (arrived (codes "got"))
        (turn_of short_write ∷ record { line = []; write = wrote 0; read = eof } ∷ [])
      ≡ record {
        end = quits_client;
        sent = said short_write ∷ [];
        shown = take read_size (codes "got") ∷ heard short_write ∷ [];
      })
    × (main
          (arrived (codes "got"))
          (turn_of short_write ∷ record (turn_of short_write) { read = eof } ∷ [])
        ≡ record {
          end = quits_server;
          sent = said short_write ∷ said short_write ∷ [];
          shown = take read_size (codes "got") ∷ heard short_write ∷ [];
        })
main_exchanges_example =
    main_exchanges (codes "got") (short_write ∷ []) (wrote 0) eof short_write []
