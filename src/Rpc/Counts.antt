-- ===== src/Rpc/Counts.antt =====
-- What can happen to a client, and the counts of calls made, waiting and ended.
use pyxis.Prelude.{
  ℕ, ◌+◌, ◌≤◌, Bool, true, ◌&&◌, List, [], ◌∷◌, ◌++◌, none, some, ◌≡◌, refl, ap, arith,
  if◌then◌else◌, ◌==◌, ltb,
}
use pyxis.Maps.{find, assign, erase}
use pyxis.Maps.Keys.{nat_key}
use pyxis.Maps.Ascending.{above, ascending}
use pyxis.Messages.{Request, Response}
use pyxis.Rpc.{
  Client, Done, Effect, call_in_loop, on_connection, on_rpc_message, on_call_timeout, close,
  reset_all,
}

-- What can happen to a client.
pub data Input : Type 0 where
  call : ℕ → Request → Input
  message : Response → Input
  timeout : ℕ → Input
  connection : Bool → Input
  closing : Input

unfoldable pub react : Input → Client → Effect
react (call n req) c = call_in_loop c n req
react (message rep) c = on_rpc_message rep c
react (timeout x) c = on_call_timeout x c
react (connection up) c = (on_connection up c).0
react closing c = close c

unfoldable pub run : List Input → Client → Client × List Done
unfolding react
run [] c = (c, [])
run (i ∷ inputs) c =
    let e = react i c in let (c', done) = run inputs e.client in (c', e.done ++ done)

-- How often a call was made, waits, and has ended.
unfoldable pub made : ℕ → List Input → ℕ
made n [] = 0
made n (call m req ∷ inputs) = (if m == n then 1 else 0) + made n inputs
made n (_ ∷ inputs) = made n inputs

unfoldable pub waiting : ℕ → List (ℕ × ℕ) → ℕ
waiting n [] = 0
waiting n ((x, m) ∷ calls) = (if m == n then 1 else 0) + waiting n calls

unfoldable pub ended : ℕ → List Done → ℕ
ended n [] = 0
ended n (d ∷ done) = (if d.call == n then 1 else 0) + ended n done

pub ended-append : (n : ℕ) (a b : List Done) → ended n (a ++ b) ≡ ended n a + ended n b
unfolding ended
ended-append n [] b = omega arith
ended-append n (d ∷ a) b = ground (arith, ended-append n a b)

-- Every id that waits was given out.
unfoldable pub below : ℕ → List (ℕ × ℕ) → Bool
below x [] = true
below x ((y, m) ∷ calls) = ltb y x && below x calls

pub below-assign :
    (x y m : ℕ) (calls : List (ℕ × ℕ)) → below x (assign y m calls) ≡ (ltb y x && below x calls)
unfolding below assign
below-assign x y m [] = ground arith
below-assign x y m ((z, k) ∷ calls) = ground (arith, below-assign x y m calls)

pub below-erase :
    (x y : ℕ) (calls : List (ℕ × ℕ)) → below x calls ≡ true → below x (erase y calls) ≡ true
unfolding below erase
below-erase x y [] h = refl
below-erase x y ((z, k) ∷ calls) h = ground (arith, below-erase x y calls)

pub below-suc :
    (x y : ℕ) (calls : List (ℕ × ℕ)) → x ≤ y → below x calls ≡ true → below y calls ≡ true
unfolding below
below-suc x y [] h w = refl
below-suc x y ((z, k) ∷ calls) h w = ground (arith, below-suc x y calls h)

pub find-below : (x : ℕ) (calls : List (ℕ × ℕ)) → below x calls ≡ true → find x calls ≡ none
unfolding below find
find-below x [] h = refl
find-below x ((z, k) ∷ calls) h = ground (arith, find-below x calls)

pub waiting-assign :
    (n x m : ℕ) (calls : List (ℕ × ℕ))
    → find x calls ≡ none
    → waiting n (assign x m calls) ≡ (if m == n then 1 else 0) + waiting n calls
unfolding waiting assign find
waiting-assign n x m [] h = refl
waiting-assign n x m ((z, k) ∷ calls) h = ground (arith, waiting-assign n x m calls)

pub erase-above : (x : ℕ) (calls : List (ℕ × ℕ)) → above x calls ≡ true → erase x calls ≡ calls
unfolding above erase
erase-above x [] h = refl
erase-above x ((z, k) ∷ calls) h = ground (arith, erase-above x calls)

pub waiting-erase :
    (n x m : ℕ) (calls : List (ℕ × ℕ))
    → ascending calls ≡ true
    → find x calls ≡ some m
    → waiting n calls ≡ (if m == n then 1 else 0) + waiting n (erase x calls)
unfolding waiting erase find ascending
waiting-erase n x m [] a h = absurd (ground arith)
waiting-erase n x m ((z, k) ∷ calls) a h =
    ground (arith, waiting-erase n x m calls, erase-above x calls, ap (λ (y : ℕ). above y calls))

pub ended-reset_all : (n : ℕ) (calls : List (ℕ × ℕ)) → ended n (reset_all calls) ≡ waiting n calls
unfolding ended waiting reset_all
ended-reset_all n [] = refl
ended-reset_all n ((x, m) ∷ calls) = ground (arith, ended-reset_all n calls)
