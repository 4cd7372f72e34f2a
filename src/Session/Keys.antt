-- ===== src/Session/Keys.antt =====
-- session.rs: which threads have the same key.
use openjarvis.Base.{Text, [], ◌∷◌, ◌++◌, ◌≡◌, arith, All, ◌≢◌, txt}
use mathlib.Core.List.{append_assoc}
use openjarvis.Session.{SessionKey, thread_key}

-- A text without the separator `:`.
abbrev pub IsPlain : Text → Type 0
IsPlain s = All (λ c. c ≢ b':') s

cut :
    (s t : Text) (r u : Text)
    → IsPlain s
    → IsPlain t
    → s ++ (b':' ∷ r) ≡ t ++ (b':' ∷ u)
    → (s ≡ t) × (r ≡ u)
cut [] [] r u p q e = ground arith
cut [] (d ∷ t) r u p q e = ground arith
cut (c ∷ s) [] r u p q e = ground arith
cut (c ∷ s) (d ∷ t) r u p q e = ground (arith, cut s t r u p.1 q.1)

-- Where neither the user nor the channel holds a `:`, the key of a thread determines the user, the
-- channel and the external thread.
pub thread_key_injective :
    (j k : SessionKey) (e f : Text)
    → IsPlain j.user_id
    → IsPlain j.channel
    → IsPlain k.user_id
    → IsPlain k.channel
    → thread_key j e ≡ thread_key k f
    → (j ≡ k) × (e ≡ f)
unfolding thread_key
thread_key_injective j k e f pj qj pk qk h =
    let first = cut j.user_id k.user_id _ _ pj pk h in
    ground (arith, first, cut j.channel k.channel e f qj qk first.1)

-- Without that condition it does not: a user whose identifier ends in `:` and the channel's name
-- shares the key of each thread with the user before the `:` whose external thread begins with the
-- channel's name and `:`.
pub thread_key_collision :
    (user channel e : Text)
    → thread_key (record { channel = channel; user_id = user ++ (txt ":" ++ channel) }) e
      ≡ thread_key (record { channel = channel; user_id = user }) (channel ++ (txt ":" ++ e))
unfolding thread_key
thread_key_collision user channel e =
    append_assoc user (b':' ∷ channel) (b':' ∷ (channel ++ b':' ∷ e))
