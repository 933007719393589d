-- ===== src/Stream/Arrives.antt =====
-- src/stream.rs: what is to be read of a stream, from what happens to it and from its messages.
use picoquic_rs.Base.{
  ◌*◌, ◌≤◌, ◌≡◌, refl, sym, ap, subst, ◌∙◌, length-append, append_assoc, Bool, true, false, ◌&&◌,
  not, List, [], ◌∷◌, ◌++◌, length, arith, if◌then◌else◌, is_empty,
}
use picoquic_rs.Errors.{Bytes, Error}
use picoquic_rs.Stream.Types.{Context, Ext, Event, Message, Stream, stream_fin, stream_reset}
use picoquic_rs.Stream.Types as Types
use picoquic_rs.Stream.StopSending.{
  Happening, from_peer, connection_error, connection_close, app_reset, app_dropped,
}
use picoquic_rs.Stream.Delivery.{of_data, of_event, told, still_open, tells}

-- How a stream stands for its reader.
pub data Standing : Type 0 where
  going_on over was_reset : Standing
  failed : Error → Standing

-- What was read, and how the stream stands then.
abbrev pub Reading : Type 0
Reading = List Bytes × Standing

abbrev pub after : Bytes → Reading → Reading
after b (bs, e) = (b ∷ bs, e)

abbrev pub after_data : Bool → Bytes → Reading → Reading
after_data is_open b r = if not (is_empty b) && is_open then after b r else r

-- What is to be read of a history: the data that comes while the stream is `is_open`, up to the first
-- end.
unfoldable pub arrives : Bool → List Happening → Reading
arrives is_open [] = ([], going_on)
arrives is_open (from_peer b stream_fin ∷ hs) = after_data is_open b ([], over)
arrives is_open (from_peer b stream_reset ∷ hs) = after_data is_open b ([], was_reset)
arrives is_open (from_peer b e ∷ hs) = after_data is_open b (arrives is_open hs)
arrives is_open (connection_error e ∷ hs) = ([], failed (e tt))
arrives is_open (connection_close ∷ hs) = ([], over)
arrives is_open (app_reset ∷ hs) = arrives is_open hs
arrives is_open (app_dropped ∷ hs) = arrives false hs

-- What is to be read of messages, of which none swaps channels.
unfoldable pub heard : List Message → Reading
heard [] = ([], going_on)
heard (Types.recv_data b ∷ ms) = after b (heard ms)
heard (Types.reset ∷ ms) = ([], was_reset)
heard (Types.error e ∷ ms) = ([], failed e)
heard (_ ∷ ms) = ([], over)

unfoldable pub IsSwapFree : List Message → Type 0
IsSwapFree [] = Unit
IsSwapFree (Types.swap_send_data r x ∷ ms) = ⊥
IsSwapFree (_ ∷ ms) = IsSwapFree ms

heard-data :
    (b : Bytes) (is_open : Bool) (ms : List Message)
    → heard ((of_data is_open b ++ []) ++ ms) ≡ after_data is_open b (heard ms)
unfolding heard
heard-data [] o ms = refl
heard-data (x ∷ b) false ms = refl
heard-data (x ∷ b) true ms = refl

and-true : (b : Bool) → (b && true) ≡ b
and-true true = refl
and-true false = refl

pub heard-tells :
    (hs : List Happening) (is_open : Bool) → heard (tells is_open hs) ≡ arrives is_open hs
unfolding heard tells arrives
heard-tells [] o = refl
heard-tells (from_peer b stream_fin ∷ hs) o = ground arith
heard-tells (from_peer b stream_reset ∷ hs) o = ground arith
heard-tells (from_peer b e ∷ hs) o =
    heard-data b o (tells (o && true) hs)
    ∙ ap (after_data o b) (heard-tells hs (o && true) ∙ ap (λ x. arrives x hs) (and-true o))
heard-tells (connection_error e ∷ hs) o = refl
heard-tells (connection_close ∷ hs) o = refl
heard-tells (app_reset ∷ hs) o = heard-tells hs o
heard-tells (app_dropped ∷ hs) o = heard-tells hs false

data-IsSwapFree :
    (b : Bytes) (is_open : Bool) (ms : List Message)
    → IsSwapFree ms
    → IsSwapFree (of_data is_open b ++ ms)
unfolding IsSwapFree
data-IsSwapFree [] o ms p = p
data-IsSwapFree (x ∷ b) false ms p = p
data-IsSwapFree (x ∷ b) true ms p = p

event-IsSwapFree : (e : Event) (ms : List Message) → IsSwapFree ms → IsSwapFree (of_event e ++ ms)
unfolding IsSwapFree
event-IsSwapFree stream_fin ms p = p
event-IsSwapFree stream_reset ms p = p
event-IsSwapFree _ ms p = p

told-IsSwapFree :
    (h : Happening) (is_open : Bool) (ms : List Message)
    → IsSwapFree ms
    → IsSwapFree (told is_open h ++ ms)
unfolding IsSwapFree
told-IsSwapFree (from_peer b e) o ms p =
    subst IsSwapFree (sym (append_assoc (of_data o b) (of_event e) ms))
      (data-IsSwapFree b o (of_event e ++ ms) (event-IsSwapFree e ms p))
told-IsSwapFree (connection_error e) o ms p = p
told-IsSwapFree connection_close o ms p = p
told-IsSwapFree app_reset o ms p = p
told-IsSwapFree app_dropped o ms p = p

event-length : (e : Event) → length (of_event e) ≤ 1
event-length stream_fin = omega arith
event-length stream_reset = omega arith
event-length _ = omega arith

data-length : (b : Bytes) (is_open : Bool) → length (of_data is_open b) ≤ 1
data-length [] o = omega arith
data-length (x ∷ b) false = omega arith
data-length (x ∷ b) true = omega arith

told-length : (h : Happening) (is_open : Bool) → length (told is_open h) ≤ 2
told-length (from_peer b e) o =
    omega (arith, length-append (of_data o b) (of_event e), event-length e, data-length b o)
told-length (connection_error e) o = omega arith
told-length connection_close o = omega arith
told-length app_reset o = omega arith
told-length app_dropped o = omega arith

pub tells-IsSwapFree : (hs : List Happening) (is_open : Bool) → IsSwapFree (tells is_open hs)
unfolding IsSwapFree tells
tells-IsSwapFree [] o = tt
tells-IsSwapFree (h ∷ hs) o =
    told-IsSwapFree h o (tells (still_open o h) hs) (tells-IsSwapFree hs (still_open o h))

pub tells-length :
    (hs : List Happening) (is_open : Bool) → length (tells is_open hs) ≤ 2 * length hs
unfolding tells
tells-length [] o = omega arith
tells-length (h ∷ hs) o = omega (
  arith,
  tells-length hs (still_open o h),
  length-append (told o h) (tells (still_open o h) hs),
  told-length h o,
)
