-- ===== src/Meta/Lookup.antt =====
-- Queries of the catalog: which method a name means, and what dispatch derives from a method.
use Prim.Native.Char.{code}
use telegram_bot_delivery_en.Base.{
  ℕ, ◌+◌, String, Bool, true, false, ◌&&◌, List, [], ◌∷◌, Option, leb, ◌==◌, nat_eq, string_eq, any,
  find_where, if◌then◌else◌,
}
use telegram_bot_delivery_en.Meta.Spec.{MethodFamily, MethodSpec, send, copy, forward, edit, delete}
use telegram_bot_delivery_en.Meta.Catalog.{methods, non_bulk_methods}

-- `u8::to_ascii_lowercase` on a code point: only A to Z change.
abbrev pub to_ascii_lowercase : ℕ → ℕ
to_ascii_lowercase c = if leb b'A' c && leb c b'Z' then c + 32 else c

abbrev pub folded : String → List ℕ
folded String.[] = []
folded (String.◌∷◌ c s) = to_ascii_lowercase (code c) ∷ folded s

abbrev pub codes_beq : List ℕ → List ℕ → Bool
codes_beq [] [] = true
codes_beq (x ∷ xs) (y ∷ ys) = x == y && codes_beq xs ys
codes_beq _ _ = false

-- `str::eq_ignore_ascii_case`.
abbrev pub eq_ignore_ascii_case : String → String → Bool
eq_ignore_ascii_case s t = codes_beq (folded s) (folded t)

unfoldable pub method : String → Option MethodSpec
method name = find_where (λ m. eq_ignore_ascii_case m.name name) methods

unfoldable pub is_non_bulk : String → Bool
is_non_bulk name = any (λ m. eq_ignore_ascii_case m name) non_bulk_methods

unfoldable pub is_multipart : MethodSpec → Bool
is_multipart spec = any (λ p. p.file) spec.params

unfoldable pub lease_ttl_secs : MethodSpec → ℕ
lease_ttl_secs spec = if is_multipart spec then 70 else 30

unfoldable pub method_timeout_secs : MethodSpec → ℕ
method_timeout_secs spec = if is_multipart spec then 60 else 20

abbrev pub migrates : MethodFamily → Bool
migrates send = true
migrates copy = true
migrates forward = true
migrates edit = true
migrates delete = true
migrates _ = false

unfoldable pub can_auto_migrate : MethodSpec → Bool
can_auto_migrate spec = any (λ p. p.name == "chat_id") spec.params && migrates spec.family

abbrev pub resendable : MethodFamily → Bool
resendable send = true
resendable copy = true
resendable forward = true
resendable _ = false

unfoldable pub method_aware_retries : MethodSpec → Bool
method_aware_retries spec = resendable spec.family
