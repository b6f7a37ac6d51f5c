-- ===== src/Session.antt =====
-- Session types, of typeway-core/src/session.rs. The marker types of the source are the constructors of
-- `SessionType`, and the trait `Dual` with its implementations is the function `dual`. `M` names the
-- types of the messages.
pub mod Channel
pub mod Duality
pub mod Peers
mod Tests

pub data SessionType (M : Type 0) : Type 0 where
  send recv : M → SessionType M → SessionType M
  offer select : SessionType M → SessionType M → SessionType M
  end var : SessionType M
  rec : SessionType M → SessionType M

unfoldable pub dual : {M : Type 0} → SessionType M → SessionType M
dual (send t next) = recv t (dual next)
dual (recv t next) = send t (dual next)
dual (offer l r) = select (dual l) (dual r)
dual (select l r) = offer (dual l) (dual r)
dual end = end
dual (rec body) = rec (dual body)
dual var = var
