-- ===== src/Policy/Patterns.antt =====
-- backend/policy/patterns.py
use agentic_ai_software_engi.Base.{Text, codes, List, [], ◌∷◌}

unfoldable pub dependency_manifest_patterns : List Text
dependency_manifest_patterns =
    codes "requirements.txt"
    ∷ codes "package.json"
    ∷ codes "package-lock.json"
    ∷ codes "yarn.lock"
    ∷ codes "Pipfile"
    ∷ codes "Pipfile.lock"
    ∷ codes "poetry.lock"
    ∷ codes "pyproject.toml"
    ∷ codes "setup.py"
    ∷ codes "setup.cfg"
    ∷ codes "Gemfile"
    ∷ codes "pom.xml"
    ∷ codes "build.gradle"
    ∷ []

unfoldable pub ci_cd_patterns : List Text
ci_cd_patterns =
    codes ".github/"
    ∷ codes ".gitlab-ci"
    ∷ codes "Jenkinsfile"
    ∷ codes ".circleci/"
    ∷ codes ".travis.yml"
    ∷ codes "azure-pipelines.yml"
    ∷ []

unfoldable pub infra_config_patterns : List Text
infra_config_patterns =
    codes "docker-compose"
    ∷ codes "Dockerfile"
    ∷ codes "Makefile"
    ∷ codes ".env"
    ∷ codes ".env."
    ∷ codes "alembic.ini"
    ∷ []
