-- ===== src/ProcessMetrics/Stat.antt =====
-- The name of a process does not disturb the reading of its other fields.
use Prim.Native.String.append.{nil, cons}
use Prim.Native.Char.{Char}
use croutond.Base.{
  ℕ, ◌^◌, ◌-◌, ◌<◌, ◌≤◌, String, ◌≡◌, refl, ◌∙◌, ap, none, some, ok_or, ◌>>=◌, List, length,
  get_elem?, ltb, false, true, ok, arith,
}
use croutond.Base.Words.{max_u64}
use croutond.Base.Text.Decimal.{decimal, parse_uint-decimal}
use croutond.Base.Text.Spaced.{spaced, all_words, split_whitespace-behind_space}
use croutond.Base.Text.{◌+++◌}
use croutond.Base.Text.Splits.{split_whitespace}
use croutond.ProcessMetrics.{or_here, after_last_paren, nth_field, parse_fields, parse_proc_stat}

behind_paren :
    (rest : String) → after_last_paren rest ≡ none → after_last_paren (")" +++ rest) ≡ some rest
unfolding after_last_paren
behind_paren rest h =
    ap after_last_paren (cons ")" "" rest ∙ ap (String.◌∷◌ ")") (nil rest))
    ∙ ap (or_here ")" rest) h

after_last_paren-append :
    (s rest : String)
    → after_last_paren rest ≡ none
    → after_last_paren (s +++ ")" +++ rest) ≡ some rest
unfolding after_last_paren
after_last_paren-append String.[] rest h =
    ap after_last_paren (nil (")" +++ rest)) ∙ behind_paren rest h
after_last_paren-append (String.◌∷◌ c s) rest h =
    ap after_last_paren (cons c s (")" +++ rest))
    ∙ ap (or_here c (s +++ ")" +++ rest)) (after_last_paren-append s rest h)

parse_proc_stat-parse_fields :
    (name rest : String)
    → after_last_paren rest ≡ none
    → parse_proc_stat (name +++ ")" +++ rest) ≡ parse_fields (split_whitespace rest)
unfolding parse_proc_stat
parse_proc_stat-parse_fields name rest h =
    ap
      (λ after. ok_or after "invalid /proc stat format: missing ')'" >>= λ text.
        parse_fields (split_whitespace text))
      (after_last_paren-append name rest h)

nth_field-get :
    (i : ℕ) (fields : List String) (field : String)
    → get_elem? fields i ≡ some field
    → nth_field i fields ≡ field
nth_field-get i fields field e = ap (λ o. elim o [ none ↦ "" | some found ↦ found ]) e

parse_fields-ok :
    (fields : List String) (c : Char) (s : String) (utime stime num_threads : ℕ)
    → 18 ≤ length fields
    → get_elem? fields 0 ≡ some (String.◌∷◌ c s)
    → get_elem? fields 11 ≡ some (decimal utime)
    → get_elem? fields 12 ≡ some (decimal stime)
    → get_elem? fields 17 ≡ some (decimal num_threads)
    → utime ≤ max_u64
    → stime ≤ max_u64
    → num_threads < 2 ^ 32
    → parse_fields fields
      ≡ ok (record {
        state = String.◌∷◌ c "";
        utime = utime;
        stime = stime;
        num_threads = num_threads;
      })
unfolding parse_fields
parse_fields-ok fields c s utime stime num_threads enough e₀ e₁ e₂ e₃ h₁ h₂ h₃ =
    let long : ltb (length fields) 18 ≡ false = ground arith in
    rw
      (
        long,
        nth_field-get 0 fields (String.◌∷◌ c s) e₀,
        nth_field-get 11 fields (decimal utime) e₁,
        nth_field-get 12 fields (decimal stime) e₂,
        nth_field-get 17 fields (decimal num_threads) e₃,
        parse_uint-decimal max_u64 utime h₁,
        parse_uint-decimal max_u64 stime h₂,
        parse_uint-decimal (2 ^ 32 - 1) num_threads (omega arith),
      )
      refl

-- A line of /proc/<pid>/stat is read back, whatever name the process has given itself, with spaces,
-- digits and parentheses in it: behind the name's parenthesis stand at least 18 words without another
-- closing one, of which the first gives the state with its first letter, and the twelfth, thirteenth
-- and eighteenth are the ticks and the number of threads, in decimals and within their types.
pub parse_proc_stat-spaced :
    (name : String) (fields : List String) (c : Char) (s : String) (utime stime num_threads : ℕ)
    → all_words fields ≡ true
    → after_last_paren (spaced fields) ≡ none
    → 18 ≤ length fields
    → get_elem? fields 0 ≡ some (String.◌∷◌ c s)
    → get_elem? fields 11 ≡ some (decimal utime)
    → get_elem? fields 12 ≡ some (decimal stime)
    → get_elem? fields 17 ≡ some (decimal num_threads)
    → utime ≤ max_u64
    → stime ≤ max_u64
    → num_threads < 2 ^ 32
    → parse_proc_stat (name +++ ")" +++ spaced fields)
      ≡ ok (record {
        state = String.◌∷◌ c "";
        utime = utime;
        stime = stime;
        num_threads = num_threads;
      })
parse_proc_stat-spaced name fields c s utime stime num_threads words h enough e₀ e₁ e₂ e₃ h₁ h₂ h₃ =
    parse_proc_stat-parse_fields name (spaced fields) h
    ∙ ap parse_fields (split_whitespace-behind_space fields words)
    ∙ parse_fields-ok fields c s utime stime num_threads enough e₀ e₁ e₂ e₃ h₁ h₂ h₃
