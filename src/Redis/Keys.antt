-- ===== src/Redis/Keys.antt =====
-- The keys of the program, by what their f-strings hold.
use Prim.Native.Char.{code}
use Prim.Native.String.{◌++◌ as str_append}
use text.Mathlib.TextLemmas.{nil-append, cons-append, append_cancel_left}
use reddit_kafka.Base.{
  ℕ, ◌≡◌, refl, ap, ◌∙◌, Bool, true, false, List, ◌∷◌, ◌++◌, sym, String, codes, str_eq, str_eq_iff,
  arith, ◌↔◌,
}

pub data Key : Type 0 where
  lock_key subreddit_key identity_key stop_request_key : String → Key
  meta_key checkpoint_key : String → Key
  all_streams_key : Key
  instance_key errors_key : String → Key

abbrev pub key_eq : Key → Key → Bool
key_eq (lock_key a) (lock_key b) = str_eq a b
key_eq (subreddit_key a) (subreddit_key b) = str_eq a b
key_eq (identity_key a) (identity_key b) = str_eq a b
key_eq (stop_request_key a) (stop_request_key b) = str_eq a b
key_eq (meta_key a) (meta_key b) = str_eq a b
key_eq (checkpoint_key a) (checkpoint_key b) = str_eq a b
key_eq all_streams_key all_streams_key = true
key_eq (instance_key a) (instance_key b) = str_eq a b
key_eq (errors_key a) (errors_key b) = str_eq a b
key_eq _ _ = false

-- The f-strings.
unfoldable pub render : Key → String
render (lock_key a) = str_append "stream:lock:" a
render (subreddit_key a) = str_append "stream:subreddit:" a
render (identity_key a) = str_append "stream:identity:" a
render (stop_request_key a) = str_append "stream:stop-request:" a
render (meta_key a) = str_append "stream:meta:" a
render (checkpoint_key a) = str_append "stream:checkpoint:" a
render all_streams_key = "streams:all"
render (instance_key a) = str_append "streams:instance:" a
render (errors_key a) = str_append "stream:errors:" a

codes-append : (s t : String) → codes (str_append s t) ≡ codes s ++ codes t
codes-append String.[] t = ap codes (nil-append t)
codes-append (String.◌∷◌ c s) t =
    ap codes (cons-append c s t) ∙ ap (◌∷◌ (code c)) (codes-append s t)

-- the two characters after the first seven, in which the kinds of keys differ
mark : List ℕ → ℕ × ℕ
mark (_ ∷ _ ∷ _ ∷ _ ∷ _ ∷ _ ∷ _ ∷ a ∷ b ∷ _) = (a, b)
mark _ = (0, 0)

-- what `mark` finds in the rendered key
kind_mark : Key → ℕ × ℕ
kind_mark (lock_key _) = (b'l', b'o')
kind_mark (subreddit_key _) = (b's', b'u')
kind_mark (identity_key _) = (b'i', b'd')
kind_mark (stop_request_key _) = (b's', b't')
kind_mark (meta_key _) = (b'm', b'e')
kind_mark (checkpoint_key _) = (b'c', b'h')
kind_mark all_streams_key = (b':', b'a')
kind_mark (instance_key _) = (b':', b'i')
kind_mark (errors_key _) = (b'e', b'r')

mark-render : (k : Key) → mark (codes (render k)) ≡ kind_mark k
unfolding mark render kind_mark
mark-render all_streams_key = refl
mark-render (lock_key a) = rw codes-append
mark-render (subreddit_key a) = rw codes-append
mark-render (identity_key a) = rw codes-append
mark-render (stop_request_key a) = rw codes-append
mark-render (meta_key a) = rw codes-append
mark-render (checkpoint_key a) = rw codes-append
mark-render (instance_key a) = rw codes-append
mark-render (errors_key a) = rw codes-append

same_kind : (a b : Key) → render a ≡ render b → kind_mark a ≡ kind_mark b
same_kind a b p = sym (mark-render a) ∙ ap (λ (s : String). mark (codes s)) p ∙ mark-render b

-- Keys that the program builds as the same text are the same key: neither a subreddit, nor a
-- stream or an instance, chosen as one likes, makes keys of two kinds collide.
pub render_injective : (a b : Key) → render a ≡ render b → a ≡ b
unfolding render kind_mark
render_injective all_streams_key all_streams_key p = refl
render_injective (lock_key a) (lock_key b) p = ap lock_key (append_cancel_left _ _ _ p)
render_injective (subreddit_key a) (subreddit_key b) p =
    ap subreddit_key (append_cancel_left _ _ _ p)
render_injective (identity_key a) (identity_key b) p = ap identity_key (append_cancel_left _ _ _ p)
render_injective (stop_request_key a) (stop_request_key b) p =
    ap stop_request_key (append_cancel_left _ _ _ p)
render_injective (meta_key a) (meta_key b) p = ap meta_key (append_cancel_left _ _ _ p)
render_injective (checkpoint_key a) (checkpoint_key b) p =
    ap checkpoint_key (append_cancel_left _ _ _ p)
render_injective (instance_key a) (instance_key b) p = ap instance_key (append_cancel_left _ _ _ p)
render_injective (errors_key a) (errors_key b) p = ap errors_key (append_cancel_left _ _ _ p)
render_injective a b p =
    let q = same_kind a b p in
    absurd (omega (arith, ap (λ (t : ℕ × ℕ). t.0) q, ap (λ (t : ℕ × ℕ). t.1) q))

pub key_eq_iff : (a b : Key) → (key_eq a b ≡ true) ↔ (a ≡ b)
key_eq_iff all_streams_key all_streams_key = ((λ _. refl), (λ _. refl))
key_eq_iff (lock_key a) (lock_key b) = ground (arith, str_eq_iff a b)
key_eq_iff (subreddit_key a) (subreddit_key b) = ground (arith, str_eq_iff a b)
key_eq_iff (identity_key a) (identity_key b) = ground (arith, str_eq_iff a b)
key_eq_iff (stop_request_key a) (stop_request_key b) = ground (arith, str_eq_iff a b)
key_eq_iff (meta_key a) (meta_key b) = ground (arith, str_eq_iff a b)
key_eq_iff (checkpoint_key a) (checkpoint_key b) = ground (arith, str_eq_iff a b)
key_eq_iff (instance_key a) (instance_key b) = ground (arith, str_eq_iff a b)
key_eq_iff (errors_key a) (errors_key b) = ground (arith, str_eq_iff a b)
key_eq_iff a b = ground arith
