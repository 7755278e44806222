-- ===== src/Reconcile/Tests.antt =====
-- Runs of the reconcile loop.
use codesk.Common.{◌≡◌, refl, true, List, [], ◌∷◌, String_key}
use codesk.Common.Dict.{contains}
use codesk.Common.Text.{trim_space, trim_left, trim_right, is_space, set_insert}
use codesk.Reconcile.{mark}
use codesk.Reconcile.Loop.{Loop, new_loop, LoopEvent, marked, mark_it, Steps, stay, move}
use codesk.Reconcile.Wakes.{is_watched, Steps-is_watched, IsTaken, dirty-IsTaken}

-- A document is marked, and its token is yet to be sent.
abbrev one_marked : Loop
one_marked = record new_loop { queue = mark "d" new_loop.queue }

abbrev marking : List LoopEvent
marking = marked "d" ∷ []

marking-Steps : Steps new_loop marking one_marked
marking-Steps = move (mark_it new_loop "d") (stay one_marked)

Steps-is_watched_example : is_watched one_marked ≡ true
Steps-is_watched_example = Steps-is_watched marking-Steps refl

d_is_dirty : contains "d" one_marked.queue.dirty ≡ true
unfolding mark trim_space trim_left trim_right is_space set_insert contains
d_is_dirty = refl

dirty-IsTaken_example : IsTaken "d" one_marked
dirty-IsTaken_example = dirty-IsTaken "d" marking-Steps refl d_is_dirty
