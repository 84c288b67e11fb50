-- ===== src/Svcx/Laws.antt =====
-- What a hub answers after services come and go.
use extlib.Common.{
  ℕ, zero, suc, ◌-◌, ◌≡◌, refl, ◌∙◌, true, false, some, List, [], ◌∷◌, ◌++◌, arith, take, All,
  Bytes,
}
use extlib.Text.{starts}
use extlib.Srrp.{Packet}
use extlib.Svcx.{Service, header_size, add_service, del_service, deal}

starts-take : (n : ℕ) (header : Bytes) → starts (take n header) header ≡ true
unfolding starts
starts-take zero header = refl
starts-take (suc n) [] = refl
starts-take (suc n) (x ∷ xs) = ground (arith, starts-take n xs)

module _ {A : Type 0} where
  -- A service that was added is the one that its header takes away again, also where the header is
  -- longer than the field.
  pub del_service-add_service :
      (header : Bytes) (func : Packet → A) (hub : List (Service A))
      → del_service header (add_service header func hub) ≡ some hub
  unfolding del_service add_service
  del_service-add_service header func hub =
      let e = starts-take (header_size - 1) header in rw e refl

  -- Taking away a service whose header begins the one given takes away the first of those, and
  -- leaves the rest in order.
  pub del_service-first :
      (header : Bytes) (xs : List (Service A)) (s : Service A) (ys : List (Service A))
      → All (λ x. starts x.header header ≡ false) xs
      → starts s.header header ≡ true
      → del_service header (xs ++ (s ∷ ys)) ≡ some (xs ++ ys)
  unfolding del_service
  del_service-first header [] s ys h e = ground arith
  del_service-first header (x ∷ xs) s ys (n, h) e =
      ground (arith, del_service-first header xs s ys h e)

  deal-skips :
      (xs ys : List (Service A)) (req : Packet)
      → All (λ x. starts x.header req.header ≡ false) xs
      → deal (xs ++ ys) req ≡ deal ys req
  unfolding deal
  deal-skips [] ys req h = refl
  deal-skips (x ∷ xs) ys req (n, h) = ground (arith, deal-skips xs ys req h)

  -- The first service whose header begins the request's answers it.
  pub deal_first :
      (xs : List (Service A)) (s : Service A) (ys : List (Service A)) (req : Packet)
      → All (λ x. starts x.header req.header ≡ false) xs
      → starts s.header req.header ≡ true
      → deal (xs ++ (s ∷ ys)) req ≡ some (s.func req)
  unfolding deal
  deal_first xs s ys req h e = deal-skips xs (s ∷ ys) req h ∙ ground arith
