-- ===== src/SyncClient/Duplex/Order.antt =====
-- The order in which the last call of grpcdemo/client.cpp shows the answers, and that it ends.
use cpp_demo.Prelude.{
  ℕ, ◌+◌, ◌*◌, ◌<◌, ◌≤◌, ◌≡◌, refl, sym, ap, ◌∙◌, ◌⊎◌, inl, inr, List, [], ◌∷◌, ◌++◌, map,
  append_assoc, Text, length, length-append, arith,
}
use cpp_demo.Service.{HelloRequest, say_hello3}
use cpp_demo.SyncClient.{named}
use cpp_demo.SyncClient.Duplex.{
  Thread, working, ended, Duplex, begin_call, message, write_one, writes_done, serve, show, Step,
  writes, write_fails, finishes, serves, returns, reads, read_fails, Steps, here, next, breaks,
  Break, read_broken, service_broken,
}

-- What is left to do, in steps.
abbrev pub busy : Thread → ℕ
busy working = 1
busy ended = 0

abbrev pub rest : Duplex → ℕ
rest d =
    length d.left * 3
    + length d.requests * 2
    + length d.responses
    + busy d.writer
    + busy d.service
    + busy d.reader

-- What was shown, what is to be read and what is to be served are the answers, in order.
abbrev pub InOrder : Duplex → Type 0
InOrder d = d.shown ++ (d.responses ++ map message d.requests) ≡ map message d.sent

map_message_snoc :
    (rs : List HelloRequest) (r : HelloRequest)
    → map message (rs ++ r ∷ []) ≡ map message rs ++ message r ∷ []
map_message_snoc [] r = refl
map_message_snoc (q ∷ rs) r = ap (◌∷◌ (message q)) (map_message_snoc rs r)

in_order_write :
    (xs ys : List Text) (rs ss : List HelloRequest) (r : HelloRequest)
    → xs ++ (ys ++ map message rs) ≡ map message ss
    → xs ++ (ys ++ map message (rs ++ r ∷ [])) ≡ map message (ss ++ r ∷ [])
in_order_write xs ys rs ss r h =
    ap (λ zs. xs ++ (ys ++ zs)) (map_message_snoc rs r)
    ∙ (ap (λ zs. xs ++ zs) (sym (append_assoc ys (map message rs) (message r ∷ [])))
        ∙ (sym (append_assoc xs (ys ++ map message rs) (message r ∷ []))
            ∙ (ap (λ zs. zs ++ message r ∷ []) h ∙ sym (map_message_snoc ss r))))

Step-InOrder : {d e : Duplex} → Step d e → InOrder d → InOrder e
unfolding write_one writes_done serve show
Step-InOrder {d} (writes n ns w l) v =
    in_order_write d.shown d.responses d.requests d.sent (named n) v
Step-InOrder {d} (write_fails n ns w l) v = v
Step-InOrder {d} (finishes w l) v = v
Step-InOrder {d} (serves r rs s q) v =
    ground (arith, append_assoc d.responses (message r ∷ []) (map message rs))
Step-InOrder {d} (returns s w q) v = v
Step-InOrder {d} (reads t ts r q) v =
    ground (arith, append_assoc d.shown (t ∷ []) (ts ++ map message d.requests))
Step-InOrder {d} (read_fails r s q) v = v

Break-InOrder : {d e : Duplex} → Break d e → InOrder d → InOrder e
Break-InOrder (read_broken r) v = v
Break-InOrder (service_broken s) v = v

-- Every step does something of what is left.
Step-rest : {d e : Duplex} → Step d e → rest e < rest d
unfolding write_one writes_done serve show
Step-rest {d} (writes n ns w l) = ground (arith, length-append d.requests (named n ∷ []))
Step-rest {d} (write_fails n ns w l) = ground arith
Step-rest {d} (finishes w l) = ground arith
Step-rest {d} (serves r rs s q) = ground (arith, length-append d.responses (message r ∷ []))
Step-rest {d} (returns s w q) = ground arith
Step-rest {d} (reads t ts r q) = ground arith
Step-rest {d} (read_fails r s q) = ground arith

Break-rest : {d e : Duplex} → Break d e → rest e < rest d
Break-rest {d} (read_broken r) = ground arith
Break-rest {d} (service_broken s) = ground arith

-- Some thread can go on while the reader works.
progress_in :
    (d : Duplex) (left : List Text) (writer : Thread) (requests : List HelloRequest)
    (service : Thread) (responses : List Text)
    → d.left ≡ left
    → d.writer ≡ writer
    → d.requests ≡ requests
    → d.service ≡ service
    → d.responses ≡ responses
    → d.reader ≡ working
    → (e : Duplex) × Step d e
progress_in d ls w qs s (t ∷ ts) a b c f g h = (_, reads t ts h g)
progress_in d (n ∷ ns) working qs s [] a b c f g h = (_, writes n ns b a)
progress_in d [] working qs s [] a b c f g h = (_, finishes b a)
progress_in d ls ended qs ended [] a b c f g h = (_, read_fails h f g)
progress_in d ls ended (q ∷ qs) working [] a b c f g h = (_, serves q qs f c)
progress_in d ls ended [] working [] a b c f g h = (_, returns f b c)

pub say_hello3-map_message : (rs : List HelloRequest) → say_hello3 rs ≡ map message rs
unfolding say_hello3
say_hello3-map_message [] = refl
say_hello3-map_message (r ∷ rs) = ap (◌∷◌ (message r)) (say_hello3-map_message rs)

pub Steps-InOrder : (ns : List Text) {k : ℕ} {d : Duplex} → Steps (begin_call ns) k d → InOrder d
unfolding begin_call
Steps-InOrder ns here = refl
Steps-InOrder ns (next r s) = Step-InOrder s (Steps-InOrder ns r)
Steps-InOrder ns (breaks r b) = Break-InOrder b (Steps-InOrder ns r)

Steps-rest :
    (ns : List Text) {k : ℕ} {d : Duplex}
    → Steps (begin_call ns) k d
    → k + rest d ≤ length ns * 3 + 3
unfolding begin_call
Steps-rest ns here = omega arith
Steps-rest ns (next r s) = omega (arith, Steps-rest ns r, Step-rest s)
Steps-rest ns (breaks r b) = omega (arith, Steps-rest ns r, Break-rest b)

-- In every order of the steps, and wherever the stream breaks: no more than three steps for each name
-- and three more are made; until the reading thread has ended, some step other than a break can be
-- made; and what is shown is at each time the start of what SayHello3 makes of the requests sent.
pub Steps-Duplex :
    (ns : List Text) {k : ℕ} {d : Duplex}
    → Steps (begin_call ns) k d
    → (k ≤ length ns * 3 + 3)
      × ((d.reader ≡ ended) ⊎ ((e : Duplex) × Step d e))
      × ((more : List Text) × (d.shown ++ more ≡ say_hello3 d.sent))
Steps-Duplex ns {k} {d} r = (
  omega (arith, Steps-rest ns r),
  goes d d.reader refl,
  (d.responses ++ map message d.requests, Steps-InOrder ns r ∙ sym (say_hello3-map_message d.sent)),
)
  where
    goes : (d : Duplex) (t : Thread) → d.reader ≡ t → (d.reader ≡ ended) ⊎ ((e : Duplex) × Step d e)
    goes d ended h = inl h
    goes d working h =
        inr (
          progress_in d d.left d.writer d.requests d.service d.responses refl refl refl refl refl h)
