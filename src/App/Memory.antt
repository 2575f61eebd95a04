-- ===== src/App/Memory.antt =====
-- A cache in memory that never expires, which shows that the assumed behaviour can be met.
use mathlib.Core.List.Memᴰ
use lior_paris_wallet.Prelude.{
  ◌≡◌, ◌≢◌, ◌⊎◌, inl, inr, refl, sym, ap, ◌∙◌, Bool, true, false, Option, none, some, List, [], ◌∷◌,
  Memᴰ, arith, ◌==◌, ◌&&◌, str_eq, eq_iff, if◌then◌else◌, Bool-cases,
}
use lior_paris_wallet.Prelude.Rows.{filter_out, filter_out-mem}
use lior_paris_wallet.Entities.{Wallet}
use lior_paris_wallet.App.{BalanceKey, CacheEntry, Cache}

abbrev pub same_key : BalanceKey → BalanceKey → Bool
same_key a b = a.user_id == b.user_id && str_eq a.currency b.currency

same_key-eq : (a b : BalanceKey) → same_key a b ≡ true → a ≡ b
same_key-eq a b h = ground (arith, eq_iff a.currency b.currency)

same_key-ne : (a b : BalanceKey) → same_key a b ≡ false → a ≢ b
same_key-ne a b h e = ground (
  arith,
  eq_iff a.currency b.currency,
  ap (λ (k : BalanceKey). k.user_id) e,
  ap (λ (k : BalanceKey). k.currency) e,
)

abbrev pub cached : BalanceKey → List CacheEntry → Option Wallet
cached k [] = none
cached k (e ∷ c) = if same_key e.key k then some e.wallet else cached k c

abbrev pub evict : BalanceKey → List CacheEntry → List CacheEntry
evict k = filter_out (λ e. same_key e.key k)

abbrev pub keep : BalanceKey → Wallet → List CacheEntry → List CacheEntry
keep k w c = record { key = k; wallet = w } ∷ evict k c

pub cached-mem :
    (k : BalanceKey) (c : List CacheEntry) {w : Wallet}
    → cached k c ≡ some w
    → Memᴰ (record { key = k; wallet = w }) c
cached-mem k [] h = cc
cached-mem k (e ∷ c) {w} h = elim (Bool-cases (same_key e.key k)) [
  | inl same ↦
      let q : some w ≡ some e.wallet = sym h ∙ rw same refl in
      let key : e.key ≡ k = same_key-eq e.key k same in Memᴰ.head (ground (arith, q, key))
  | inr other ↦ Memᴰ.tail (cached-mem k c (sym (rw other refl) ∙ h))
]

pub evict-mem :
    (k : BalanceKey) (c : List CacheEntry) {e : CacheEntry}
    → Memᴰ e (evict k c)
    → Memᴰ e c × (e.key ≢ k)
evict-mem k c {e} m =
    let (old, other) = filter_out-mem (λ (d : CacheEntry). same_key d.key k) c m in
    (old, same_key-ne e.key k other)

pub keep-mem :
    (k : BalanceKey) (w : Wallet) (c : List CacheEntry) {e : CacheEntry}
    → Memᴰ e (keep k w c)
    → (e ≡ record { key = k; wallet = w }) ⊎ Memᴰ e c
keep-mem k w c m = elim (Memᴰ.cases_cons m) [ inl new ↦ inl new | inr t ↦ inr (evict-mem k c t).0 ]

abbrev pub memory_cache : Cache
memory_cache = record {
  get = cached;
  get_lem = λ k c h. cached-mem k c h;
  set = keep;
  set_lem = λ k w c m. keep-mem k w c m;
  del = evict;
  del_lem = λ k c m. evict-mem k c m;
}
