-- ===== src/Kube/Equality.antt =====
-- `reflect.DeepEqual` on the parts of objects that the controllers compare.
use hackaway_repo.Base.{ℤ, ℕ_discrete, String-discrete, List}
use hackaway_repo.Kube.Objects.{DeploymentSpec, ServicePort, Labels, Container, PodSpec}

pub ℤ-discrete : Discrete ℤ
ℤ-discrete = hlevel ℕ_discrete

pub Labels-discrete : Discrete Labels
Labels-discrete = hlevel String-discrete

pub Ports-discrete : Discrete (List ServicePort)
Ports-discrete = hlevel (String-discrete, ℤ-discrete)

Container-discrete : Discrete Container
Container-discrete = hlevel (String-discrete, ℤ-discrete)

PodSpec-discrete : Discrete PodSpec
PodSpec-discrete = hlevel (String-discrete, ℤ-discrete, Container-discrete)

pub DeploymentSpec-discrete : Discrete DeploymentSpec
DeploymentSpec-discrete = hlevel (String-discrete, ℤ-discrete, PodSpec-discrete)
