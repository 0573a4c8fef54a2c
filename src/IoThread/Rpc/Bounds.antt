-- ===== src/IoThread/Rpc/Bounds.antt =====
-- What the read loop puts into the buffer of RPC_BUFFER_SIZE bytes.
use serf_cpp.Prelude.{
  ℕ, zero, suc, ◌+◌, ◌-◌, List, [], ◌∷◌, ◌++◌, ◌≡◌, refl, sym, ap, ◌∙◌, arith, length, take,
}
use serf_cpp.IoThread.Rpc.{
  Answer, quiet, not_readable, read_error, readable, receive, rpc_buffer_size,
}

-- all the bytes that the socket has to give before the answer that ends the read loop
abbrev pub offered : List Answer → List ℕ
offered [] = []
offered (quiet ∷ rest) = []
offered (not_readable ∷ rest) = []
offered (read_error ∷ rest) = []
offered (readable [] ∷ rest) = []
offered (readable (b ∷ bs) ∷ rest) = (b ∷ bs) ++ offered rest

take-nil : (n : ℕ) → take {A = ℕ} n [] ≡ []
take-nil zero = refl
take-nil (suc n) = refl

-- `take n` of a concatenation leaves for the second list what the first one does not use
take-append :
    (n : ℕ) (xs ys : List ℕ) → take n (xs ++ ys) ≡ take n xs ++ take (n - length (take n xs)) ys
take-append zero xs ys = refl
take-append (suc n) [] ys = ap (λ k. take k ys) (let f : suc n ≡ suc n - 0 = omega arith in f)
take-append (suc n) (x ∷ xs) ys =
    ap (◌∷◌ x) (take-append n xs ys ∙ ap (λ k. take n xs ++ take k ys) (omega arith))

-- one read() that has bytes to give
read_step :
    (answers : List Answer) (count k b : ℕ) (bs : List ℕ)
    → rpc_buffer_size - count ≡ k
    → ((c : ℕ) → receive c answers ≡ take (rpc_buffer_size - c) (offered answers))
    → receive count (readable (b ∷ bs) ∷ answers) ≡ take k (offered (readable (b ∷ bs) ∷ answers))
unfolding receive
read_step answers count zero b bs e later = rw (e, receive)
read_step answers count (suc k) b bs e later =
    rw (e, receive, e, later (count + suc (length (take k bs))))
      (ap (λ xs. b ∷ xs)
        (ap (λ j. take k bs ++ take j (offered answers))
            (let f : rpc_buffer_size - (count + suc (length (take k bs))) ≡ k - length (take k bs) =
                omega (arith, e) in
              f)
          ∙ sym (take-append k bs (offered answers))))

-- The read loop with `count` bytes in the buffer gets the first bytes that the socket offers, as
-- many as the rest of the buffer has room for.
pub receive-offered :
    (answers : List Answer) (count : ℕ)
    → receive count answers ≡ take (rpc_buffer_size - count) (offered answers)
unfolding receive
receive-offered [] count = sym (take-nil _)
receive-offered (quiet ∷ rest) count = sym (take-nil _)
receive-offered (not_readable ∷ rest) count = sym (take-nil _)
receive-offered (read_error ∷ rest) count = sym (take-nil _)
receive-offered (readable [] ∷ rest) count = rw (receive, take-nil (rpc_buffer_size - count))
receive-offered (readable (b ∷ bs) ∷ rest) count =
    read_step rest count _ b bs refl (receive-offered rest)
