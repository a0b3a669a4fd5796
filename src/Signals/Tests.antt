-- ===== src/Signals/Tests.antt =====
-- misc/lsignal.cpp with a library whose signals are lists of connections.
use cpp_demo.Prelude.{
  ℕ, ◌+◌, ◌≡◌, ◌<◌, refl, true, false, List, [], ◌∷◌, ◌++◌, arith, ltb, if◌then◌else◌,
}
use cpp_demo.Signals.Library.{Entry, Lsignal, unlocked, lock_one, drop_one, drop_owned, has_handle}
use cpp_demo.Signals.{
  example1, example2, example3, example4, example5, example6, example7, example8, add, emit,
  emit_with, print_sum, print_mul, pow2, pow3, sum_agg, main,
}
use cpp_demo.Signals.Output.{transcript}

module _ {F : Type 0} where
  abbrev unused_handle : List (Entry F) → ℕ
  unused_handle [] = 0
  unused_handle (e ∷ es) = let n = unused_handle es in if ltb e.handle n then n else e.handle + 1

  has_handle-lt : (es : List (Entry F)) (c : ℕ) → has_handle c es ≡ true → c < unused_handle es
  has_handle-lt [] c h = cc
  has_handle-lt (e ∷ es) c h = ground (arith, has_handle-lt es c)

  unused_handle_lem : (es : List (Entry F)) → has_handle (unused_handle es) es ≡ false
  unused_handle_lem es = ground (arith, has_handle-lt es (unused_handle es))

abbrev list_signals : Lsignal
list_signals = record {
  Signal = λ F. List (Entry F);
  entries = λ F s. s;
  new_signal = λ F. [];
  connect = λ F f o s.
      let c = unused_handle s in
      (c, s ++ (record { handle = c; locked = false; owner = o; slot = f } ∷ []));
  set_lock = λ F c b s. lock_one c b s;
  disconnect = λ F c s. drop_one c s;
  disconnect_all = λ F s. [];
  destroy_slot = λ F o s. drop_owned o s;
  called = λ F s. unlocked s;
  of_new = λ F. refl;
  of_connect = λ F f o s. refl;
  new_handle = λ F f o s. unused_handle_lem s;
  of_set_lock = λ F c b s. refl;
  of_disconnect = λ F c s. refl;
  of_disconnect_all = λ F s. refl;
  of_destroy = λ F o s. refl;
  of_call = λ F s. refl;
}

printed : main list_signals ≡ transcript
unfolding main example1 example2 example3 example4 example5 example6 example7 example8 add emit
    emit_with print_sum print_mul pow2 pow3 sum_agg
printed = refl
