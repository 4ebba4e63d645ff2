-- ===== src/Session/Ends.antt =====
-- The session's calls of the world come to an end.
use go_zmodem.Prelude.{refl, ℕ, zero, suc, Option, none, some, List, [], ◌∷◌}
use go_zmodem.Monad.{M}
use go_zmodem.Monad.Ends.{Sure, zoom-Sure}
use go_zmodem.Writer.{Writer}
use go_zmodem.Session.{World, on_writer, on_world, ctx_err, ctx_err_of, now, now_of}

pub on_world-Sure : {A : Type 0} (m : M World A) → Sure m → Sure (on_world m)
on_world-Sure m = zoom-Sure (λ s. s.world) (λ s world. record s { world = world }) m

pub on_writer-Sure : {A : Type 0} (m : M Writer A) → Sure m → Sure (on_writer m)
on_writer-Sure m = zoom-Sure (λ s. s.tw) (λ s tw. record s { tw = tw }) m

ctx_err_of-Sure : (o : Option ℕ) → Sure (ctx_err_of o)
ctx_err_of-Sure none w = tt
ctx_err_of-Sure (some zero) w = refl
ctx_err_of-Sure (some (suc n)) w = tt

pub ctx_err-Sure : Sure (on_world ctx_err)
unfolding ctx_err
ctx_err-Sure = on_world-Sure ctx_err (λ w. ctx_err_of-Sure w.live_for w)

now_of-Sure : (ticks : List ℕ) → Sure (now_of ticks)
now_of-Sure [] w = tt
now_of-Sure (t ∷ ts) w = tt

pub now-Sure : Sure (on_world now)
unfolding now
now-Sure = on_world-Sure now (λ w. now_of-Sure w.ticks w)
