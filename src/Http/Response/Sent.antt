-- ===== src/Http/Response/Sent.antt =====
-- What a response is on the wire.
use mathlib.Core.Path.{subst}
use yvent.Prelude.{
  concat, ℕ, ◌+◌, ◌*◌, ◌≤◌, ◌≡◌, refl, sym, ap, ◌∙◌, List, [], ◌∷◌, ◌++◌, append_assoc, append-nil,
  length, length-append, arith,
}
use yvent.Fault.{Result, Returns, returns, Returns-bind}
use yvent.Word.{max_size}
use yvent.Text.{codes, digits}
use yvent.Buffer
use yvent.Buffer.{Buffer, contents}
use yvent.Buffer.Contents.{IsValid, Holds, append-Appended}
use yvent.Http.Response.{
  HttpResponse, pieces, append_all, append_to_buffer, header_pieces, connection_pieces, snprintf,
}

concat-append : (xs ys : List (List ℕ)) → concat (xs ++ ys) ≡ concat xs ++ concat ys
concat-append [] ys = refl
concat-append (x ∷ xs) ys =
    ap (◌++◌ x) (concat-append xs ys) ∙ sym (append_assoc x (concat xs) (concat ys))

append_all-Holds :
    (b : Buffer) (xs : List (List ℕ))
    → IsValid b
    → length (contents b) + 2 * length (concat xs) + 8 ≤ max_size
    → Returns (Holds (contents b ++ concat xs)) (append_all b xs)
append_all-Holds b [] v k = returns _ (record { valid = v; held = sym (append-nil (contents b)) })
append_all-Holds b (x ∷ xs) v k =
    Returns-bind (Buffer.append b x) _
      (append-Appended b x v (omega (arith, length-append x (concat xs))))
      λ c a. longer c a.holds.held (
        append_all-Holds c xs a.holds.valid (
          omega (
            arith,
            ap length a.holds.held,
            length-append (contents b) x,
            length-append x (concat xs),
          )))
  where
    longer :
        (c : Buffer)
        → contents c ≡ contents b ++ x
        → {m : Result Buffer} → Returns (Holds (contents c ++ concat xs)) m
        → Returns (Holds (contents b ++ (x ++ concat xs))) m
    longer c e (returns d h) = returns d (record {
      valid = h.valid;
      held = h.held ∙ ap (λ t. t ++ concat xs) e ∙ append_assoc (contents b) x (concat xs);
    })

-- The response as one text: what stands before the body, which ends in an empty line, and the body.
abbrev pub head : HttpResponse → List ℕ
head r =
    snprintf (codes "HTTP/1.1 " ++ (digits 20 r.status_code ++ codes " "))
    ++ (r.status_message
        ++ (codes "\r\n"
            ++ (concat (connection_pieces r)
                ++ (concat (header_pieces r.headers) ++ codes "\r\n"))))

joined_pieces :
    (a m c body : List ℕ) (ks hs : List (List ℕ))
    → a ++ (m ++ (c ++ concat (ks ++ (hs ++ (c ∷ body ∷ [])))))
      ≡ (a ++ (m ++ (c ++ (concat ks ++ (concat hs ++ c))))) ++ body
joined_pieces a m c body ks hs =
    ap (λ t. a ++ (m ++ (c ++ t)))
      (concat-append ks (hs ++ (c ∷ body ∷ []))
        ∙ ap (◌++◌ (concat ks))
            (concat-append hs (c ∷ body ∷ []) ∙ ap (λ t. concat hs ++ (c ++ t)) (append-nil body)))
    ∙ sym (
        append_assoc a (m ++ (c ++ (concat ks ++ (concat hs ++ c)))) body
        ∙ ap (◌++◌ a) (
            append_assoc m (c ++ (concat ks ++ (concat hs ++ c))) body
            ∙ ap (◌++◌ m) (
                append_assoc c (concat ks ++ (concat hs ++ c)) body
                ∙ ap (◌++◌ c) (
                    append_assoc (concat ks) (concat hs ++ c) body
                    ∙ ap (◌++◌ (concat ks)) (append_assoc (concat hs) c body)))))

pieces_text : (r : HttpResponse) → concat (pieces r) ≡ head r ++ r.body
pieces_text r =
    joined_pieces (snprintf (codes "HTTP/1.1 " ++ (digits 20 r.status_code ++ codes " ")))
      r.status_message (codes "\r\n") r.body (connection_pieces r) (header_pieces r.headers)

-- `appendToBuffer` comes back with a valid buffer that holds, behind what was there, the response's head
-- and then its body, where all of it does not come to half the largest size of a vector.
pub append_to_buffer-Holds :
    (r : HttpResponse) (output : Buffer)
    → IsValid output
    → length (contents output) + 2 * length (head r ++ r.body) + 8 ≤ max_size
    → Returns (Holds (contents output ++ (head r ++ r.body))) (append_to_buffer r output)
unfolding append_to_buffer
append_to_buffer-Holds r output v k =
    subst (λ t. Returns (Holds (contents output ++ t)) (append_all output (pieces r)))
      (pieces_text r)
      (append_all-Holds output (pieces r) v (omega (arith, ap length (pieces_text r))))
