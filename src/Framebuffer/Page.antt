-- ===== src/Framebuffer/Page.antt =====
-- The console of framebuffer.c as a page of text: lines of at most 79 characters, of which the last
-- one is written to.
use os_2024_doors.Base.{
  Bool, ℕ, suc, ◌+◌, ◌≤◌, ◌<◌, ◌≡◌, ◌≢◌, refl, sym, ap, ◌∙◌, inl, inr, true, false, arith,
  if◌then◌else◌, Bool-cases, List, [], ◌∷◌, ◌++◌, length, set, take, length-append, length-set,
  ◌==◌,
}
use mathlib.Core.Path.{subst}
use os_2024_doors.Framebuffer.{Console, Line, Screen}
use os_2024_doors.Framebuffer.Drawing.{IsNarrow, OnScreen}

-- The lines above, the nearest first, and the line that is written to.
pub record Page : Type 0 where
  pub above : List (List ℕ)
  pub line : List ℕ

abbrev pub empty_page : Page
empty_page = record { above = []; line = [] }

abbrev pub new_line : Page → Page
new_line t = record { above = t.line ∷ t.above; line = [] }

-- A character on the page: a line that is full is followed by a new one.
abbrev pub type_char : Page → ℕ → Page
type_char t c =
    if c == 10
    then new_line t
    else if length t.line == 78
    then new_line (record t { line = t.line ++ c ∷ [] })
    else record t { line = t.line ++ c ∷ [] }

abbrev pub type_text : Page → List ℕ → Page
type_text t [] = t
type_text t (c ∷ cs) = type_text (type_char t c) cs

-- The number of its lines.
abbrev pub height : Page → ℕ
height t = suc (length t.above)

-- A line of the buffer holds the characters.
pub record Holds (l : Line) (xs : List ℕ) : Type 0 where
  pub size : l.size ≡ length xs
  pub text : take (length xs) l.line_buf ≡ xs

abbrev pub HoldsAll : (ℕ → Line) → List (List ℕ) → Type 0
HoldsAll b [] = Unit
HoldsAll b (l ∷ ls) = Holds (b (length ls)) l × HoldsAll b ls

-- The first `n` lines of the buffer hold the page, and those below are empty.
pub record IsText (n : ℕ) (b : ℕ → Line) (t : Page) : Type 0 where
  pub count : n ≡ height t
  pub line : Holds (b (length t.above)) t.line
  pub above : HoldsAll b t.above
  pub below : (i : ℕ) → n ≤ i → (b i).size ≡ 0
  pub narrow : IsNarrow b
  pub shape : (i : ℕ) → length (b i).line_buf ≡ 79

-- The console shows the page: the buffer holds it, the cursor's variables stand behind its last
-- character, in the rows in view and before the last column, and the screen has the characters of
-- the lines in view in its cells, and no others.
pub record Shows (n : ℕ) (b : ℕ → Line) (row col frp : ℕ) (viewable : Bool) (m : Screen) (t : Page)
    : Type 0 where
  pub text : IsText n b t
  pub last : row + frp + 1 ≡ n
  pub room : n ≤ 4096
  pub row_lt : row < 25
  pub column : col ≡ length t.line
  pub column_lt : col < 79
  pub visible : viewable ≡ true
  pub screen : OnScreen b frp m

abbrev pub ShowsPage : Console → Page → Type 0
ShowsPage s t =
    Shows s.size s.buffer s.cursor_row s.cursor_col s.frame_row_pointer s.is_cursor_viewable
      s.screen t

abbrev pub update : (ℕ → Line) → ℕ → Line → ℕ → Line
update b i l k = if i == k then l else b k

-- A write to a line from `n` on leaves the first lines.
pub HoldsAll-update :
    (b : ℕ → Line) (i : ℕ) (l : Line) (ls : List (List ℕ))
    → HoldsAll b ls
    → length ls ≤ i
    → HoldsAll (update b i l) ls
HoldsAll-update b i l [] h le = tt
HoldsAll-update b i l (x ∷ xs) h le =
    let other : (i == length xs) ≡ false = ground arith in
    (rw other h.0, HoldsAll-update b i l xs h.1 (omega arith))

pub update_self : (b : ℕ → Line) (i : ℕ) (l : Line) → update b i l i ≡ l
update_self b i l = let e : (i == i) ≡ true = ground arith in rw e refl

pub update_ne : (b : ℕ → Line) (i k : ℕ) (l : Line) → i ≢ k → update b i l k ≡ b k
update_ne b i k l h = let e : (i == k) ≡ false = ground (arith, h) in rw e refl

-- A property of all lines stands a write of a line that has it.
pub update-all :
    (P : Line → Type 0) (b : ℕ → Line) (i : ℕ) (l : Line)
    → ((k : ℕ) → P (b k))
    → P l
    → (k : ℕ) → P (update b i l k)
update-all P b i l h p k = elim (Bool-cases (i == k)) [ inl e ↦ rw e p | inr e ↦ rw e (h k) ]

-- A character stored behind the others.
pub take-set :
    (xs ys : List ℕ) (c : ℕ)
    → take (length xs) ys ≡ xs
    → length xs < length ys
    → take (length (xs ++ c ∷ [])) (set ys (length xs) c) ≡ xs ++ c ∷ []
take-set [] [] c h lt = elim lt [ ]
take-set [] (y ∷ ys) c h lt = refl
take-set (x ∷ xs) [] c h lt = elim lt [ ]
take-set (x ∷ xs) (y ∷ ys) c h lt =
    let head : y ≡ x = cc in
    let tail : take (length xs) ys ≡ xs = cc in
    rw head (ap (λ r. x ∷ r) (take-set xs ys c tail (omega arith)))

-- The line below the page is a line of its own.
pub new_line-IsText :
    (n : ℕ) (b : ℕ → Line) (t : Page) → IsText n b t → IsText (n + 1) b (new_line t)
new_line-IsText n b t h = record {
  count = omega (arith, h.count);
  line = record { size = h.below (suc (length t.above)) (omega (arith, h.count)); text = refl };
  above = (h.line, h.above);
  below = λ i le. h.below i (omega arith);
  narrow = h.narrow;
  shape = h.shape;
}

-- The size of a line below the page may be reset.
pub clear-IsText :
    (n : ℕ) (b : ℕ → Line) (t : Page)
    → IsText n b t
    → IsText n (update b n (record (b n) { size = 0 })) t
clear-IsText n b t h = record {
  count = h.count;
  line =
      rw (update_ne b n (length t.above) (record (b n) { size = 0 }) (omega (arith, h.count)))
        h.line;
  above = HoldsAll-update b n (record (b n) { size = 0 }) t.above h.above (omega (arith, h.count));
  below = λ i le. elim (Bool-cases (n == i)) [ inl e ↦ rw e refl | inr e ↦ rw e (h.below i le) ];
  narrow = update-all (λ l. l.size ≤ 79) b n _ h.narrow (omega arith);
  shape = update-all (λ l. length l.line_buf ≡ 79) b n _ h.shape (h.shape n);
}

-- A character behind the last one.
pub store-IsText :
    (n : ℕ) (b : ℕ → Line) (t : Page) (c attr k : ℕ)
    → IsText n b t
    → length t.line < 79
    → k ≡ length t.above
    → IsText n
        (update b k (record (b k) {
          size = suc (length t.line);
          line_buf = set (b k).line_buf (length t.line) c;
          color_buf = set (b k).color_buf (length t.line) attr;
        }))
        (record t { line = t.line ++ c ∷ [] })
store-IsText n b t c attr k h lt e =
    let l : Line = record (b k) {
      size = suc (length t.line);
      line_buf = set (b k).line_buf (length t.line) c;
      color_buf = set (b k).color_buf (length t.line) attr;
    } in
    let here : Holds (b k) t.line = subst (λ i. Holds (b i) t.line) (sym e) h.line in
    let after : Holds l (t.line ++ c ∷ []) = record {
      size = omega (arith, length-append t.line (c ∷ []));
      text = take-set t.line (b k).line_buf c here.text (omega (arith, h.shape k));
    } in
    record {
      count = h.count;
      line =
          subst (λ x. Holds x (t.line ++ c ∷ []))
            (sym (ap (update b k l) (sym e) ∙ update_self b k l)) after;
      above = HoldsAll-update b k l t.above h.above (omega (arith, e));
      below =
          λ i le. ap (λ x. x.size) (update_ne b k i l (omega (arith, h.count, e))) ∙ h.below i le;
      narrow = update-all (λ x. x.size ≤ 79) b k l h.narrow (omega arith);
      shape =
          update-all (λ x. length x.line_buf ≡ 79) b k l h.shape
            (length-set (b k).line_buf (length t.line) c ∙ h.shape k);
    }
